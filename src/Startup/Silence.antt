-- ===== src/Startup/Silence.antt =====
-- The steps of main before the snapshot log no event.
use scam.Base.{
  ℕ, inl, inr, Bool, ◌||◌, not, Option, none, some, List, [], ◌∷◌, Text, codes, text_beq, leb, take,
  ◌⊎◌,
}
use scam.Capture.Trim.{trim_space}
use scam.Base.Duration.{signed_leb}
use scam.Emit.{number, Log, Attr}
use scam.Emit.Quiet.{Quiet, Quiet-refl, Quiet-trans, report-Quiet, if-Quiet}
use scam.Gateway.{Gvr}
use scam.Tuning.{positive_or, atoi, env_int, env_float32, Floats}
use scam.Discovery.{discover_gateway_api, discover_traefik}
use scam.Identity.Lookup.{
  Env, SecretReply, unread, secret, SelfReply, no_self, self, ClusterReply, unbuilt, unanswered,
  answered, ClusterFields, Round, value_at, read_secret, resolve_ror_api_key, ror_self_lookup,
  decoded_fields, ror_cluster_lookup, fetch_ror_identity,
}
use scam.Startup.Config.{Given, ror_endpoint, boot_identity, detected}
use scam.Startup.{limits, announced}

positive_or-Quiet :
    {A : Type 0} (low : A → Bool) (def : A) (shown : A → Attr) (name raw : Text) (o : Option A)
    (l : Log)
    → Quiet l (positive_or low def shown name raw o l).1
positive_or-Quiet low def shown name raw none l = report-Quiet _ _ l
positive_or-Quiet low def shown name raw (some v) l =
    if-Quiet (low v) _ _ (report-Quiet _ _ l) (Quiet-refl l)

env_int-Quiet : (name env : Text) (def : ℕ) (l : Log) → Quiet l (env_int name env def l).1
unfolding env_int
env_int-Quiet name env def l = if-Quiet (text_beq (trim_space env) []) _ _ (Quiet-refl l) (
    positive_or-Quiet (λ v. signed_leb v 0) def number name (trim_space env) (atoi (trim_space env))
      l)

env_float32-Quiet :
    (x : Floats) (name env : Text) (def : x.Float32) (l : Log)
    → Quiet l (env_float32 x name env def l).1
unfolding env_float32
env_float32-Quiet x name env def l = if-Quiet (text_beq (trim_space env) []) _ _ (Quiet-refl l) (
    positive_or-Quiet x.at_most_zero def x.shown name (trim_space env)
      (x.parse_float (trim_space env)) l)

pub limits-Quiet : (b : Given) (l : Log) → Quiet l (limits b l)
unfolding limits
limits-Quiet b l =
    Quiet-trans (env_float32-Quiet b.floats _ _ b.default_qps l) (env_int-Quiet _ _ 10 _)

read_secret-Quiet :
    (ns name key : Text) (reply : SecretReply) (l : Log)
    → Quiet l (read_secret ns name key reply l).1
read_secret-Quiet ns name key (unread err) l = report-Quiet _ _ l
read_secret-Quiet ns name key (secret data') l =
    if-Quiet (text_beq (value_at key data') []) _ _ (report-Quiet _ _ l) (Quiet-refl l)

api_key-Quiet :
    (env : Env) (reply : SecretReply) (l : Log) → Quiet l (resolve_ror_api_key env reply l).1
unfolding resolve_ror_api_key
api_key-Quiet env reply l =
    let variable : Text → Text = λ name. trim_space (env name) in
    if-Quiet (not (text_beq (variable (codes "ROR_API_KEY")) [])) _ _ (Quiet-refl l) (
      if-Quiet
        (text_beq (variable (codes "ROR_API_KEY_SECRET_NAMESPACE")) []
          || text_beq (variable (codes "ROR_API_KEY_SECRET_NAME")) []
          || text_beq (variable (codes "ROR_API_KEY_SECRET_KEY")) [])
        _ _ (Quiet-refl l) (read_secret-Quiet _ _ _ reply l))

self-Quiet : (reply : SelfReply) (l : Log) → Quiet l (ror_self_lookup reply l).1
unfolding ror_self_lookup
self-Quiet (no_self err) l = report-Quiet _ _ l
self-Quiet (self kind is_cluster user) l =
    if-Quiet (not is_cluster) _ _ (report-Quiet _ _ l) (Quiet-refl l)

decoded-Quiet :
    (body : Text) (d : Text ⊎ ClusterFields) (l : Log) → Quiet l (decoded_fields body d l).1
decoded-Quiet body (inl err) l = report-Quiet _ _ l
decoded-Quiet body (inr f) l = Quiet-refl l

cluster-Quiet :
    (url : Text) (reply : ClusterReply) (l : Log) → Quiet l (ror_cluster_lookup url reply l).1
unfolding ror_cluster_lookup
cluster-Quiet url (unbuilt err) l = report-Quiet _ _ l
cluster-Quiet url (unanswered err) l = report-Quiet _ _ l
cluster-Quiet url (answered status full decoded) l =
    if-Quiet (leb 300 status) _ _ (report-Quiet _ _ l)
      (decoded-Quiet (take 16384 full) (decoded (take 16384 full)) l)

fetch-Quiet :
    (endpoint : Text) (s : SelfReply) (c : ClusterReply) (l : Log)
    → Quiet l (fetch_ror_identity endpoint s c l).1
unfolding fetch_ror_identity
fetch-Quiet endpoint s c l =
    if-Quiet (text_beq (ror_self_lookup s l).0 []) _ _ (self-Quiet s l)
      (Quiet-trans (self-Quiet s l) (cluster-Quiet _ c _))

pub boot_identity-Quiet : (env : Env) (r : Round) (l : Log) → Quiet l (boot_identity env r l).1
unfolding boot_identity
boot_identity-Quiet env r l =
    let key = api_key-Quiet env r.secret l in
    if-Quiet (text_beq (ror_endpoint env) []) _ _ (Quiet-refl l) (
      if-Quiet (text_beq (resolve_ror_api_key env r.secret l).0 []) _ _ key
        (Quiet-trans key (fetch-Quiet (ror_endpoint env) r.self r.cluster _)))

detected-Quiet :
    (found missing : Text) (gs : List Gvr) (l : Log) → Quiet l (detected found missing gs l)
detected-Quiet found missing [] l = report-Quiet _ _ l
detected-Quiet found missing (g ∷ gs) l = report-Quiet _ _ l

pub announced-Quiet : (b : Given) (l : Log) → Quiet l (announced b l)
unfolding announced
announced-Quiet b l =
    Quiet-trans (detected-Quiet _ _ (discover_gateway_api b.served b.order) l)
      (Quiet-trans (detected-Quiet _ _ (discover_traefik b.served) _) (report-Quiet _ _ _))

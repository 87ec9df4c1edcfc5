-- ===== src/Identity/Lookup.antt =====
-- The lookups of rorself.go: the api key, the apikey's own identity, and the cluster's fields. The
-- answers of Kubernetes and of ROR are arguments.
use scam.Base.{
  ℕ, Bool, not, ◌&&◌, ◌||◌, ◌⊎◌, inl, inr, List, [], ◌∷◌, ◌++◌, map, Text, codes, length, take, leb,
  if◌then◌else◌, text_eq, ◌==◌,
}
use scam.Capture.Trim.{trim_space}
use scam.Emit.{Log, text, number, texts, report}

-- os.Getenv.
abbrev pub Env : Type 0
Env = Text → Text

pub record RorIdentity : Type 0 where
  pub uid : Text
  pub slug : Text
  pub name : Text
  pub environment : Text

abbrev pub no_identity : RorIdentity
no_identity = record { uid = []; slug = []; name = []; environment = [] }

abbrev pub identity_beq : RorIdentity → RorIdentity → Bool
identity_beq a b =
    a.uid == b.uid && a.slug == b.slug && a.name == b.name && a.environment == b.environment

-- Reading the Secret: an error, or its data.
pub data SecretReply : Type 0 where
  unread : Text → SecretReply
  secret : List (Text × Text) → SecretReply

-- The answer of V2().Self(): an error, or the type of the identity and the user's name. `is_cluster`
-- says whether the type is IdentityTypeCluster.
pub data SelfReply : Type 0 where
  no_self : Text → SelfReply
  self : (identity_type : Text) → (is_cluster : Bool) → (user_name : Text) → SelfReply

pub record ClusterFields : Type 0 where
  pub cluster_id : Text
  pub cluster_name : Text
  pub environment : Text

-- The answer of /v1/clusters/<id>: no request could be built, no answer came, or a status and a
-- body, with what json.Unmarshal makes of the part that is read: an error or the fields.
pub data ClusterReply : Type 0 where
  unbuilt unanswered : Text → ClusterReply
  answered : ℕ → (body : Text) → (decoded : Text → Text ⊎ ClusterFields) → ClusterReply

-- One round of the loop: what the Secret, ROR's Self, and the cluster lookup would answer.
pub record Round : Type 0 where
  pub secret : SecretReply
  pub self : SelfReply
  pub cluster : ClusterReply

unfoldable pub value_at : Text → List (Text × Text) → Text
value_at key [] = []
value_at key ((k, v) ∷ data') = if k == key then v else value_at key data'

-- In the order in which the map yields them.
abbrev pub secret_keys : List (Text × Text) → List Text
secret_keys data' = map (λ kv. kv.0) data'

abbrev pub read_secret : (ns name key : Text) → SecretReply → Log → Text × Log
read_secret ns name key (unread err) l = (
  [],
  report (codes "ror apikey secret read failed")
      ((codes "ns", text ns) ∷ (codes "name", text name) ∷ (codes "err", text err) ∷ []) l,
)
read_secret ns name key (secret data') l =
    let raw = value_at key data' in
    if raw == []
    then (
      [],
      report (codes "ror apikey secret has no value at key")
          ((codes "ns", text ns)
            ∷ (codes "name", text name)
            ∷ (codes "key", text key)
            ∷ (codes "keys_present", texts (secret_keys data'))
            ∷ [])
          l,
    )
    else (trim_space raw, l)

unfoldable pub resolve_ror_api_key : Env → SecretReply → Log → Text × Log
resolve_ror_api_key env reply l =
    let v = trim_space (env (codes "ROR_API_KEY")) in
    let ns = trim_space (env (codes "ROR_API_KEY_SECRET_NAMESPACE")) in
    let name = trim_space (env (codes "ROR_API_KEY_SECRET_NAME")) in
    let key = trim_space (env (codes "ROR_API_KEY_SECRET_KEY")) in
    if not (v == [])
    then (v, l)
    else if ns == [] || name == [] || key == []
    then ([], l)
    else read_secret ns name key reply l

unfoldable pub ror_self_lookup : SelfReply → Log → Text × Log
ror_self_lookup (no_self err) l =
    ([], report (codes "ror self lookup failed") ((codes "err", text err) ∷ []) l)
ror_self_lookup (self identity_type is_cluster user_name) l =
    if not is_cluster
    then (
      [],
      report (codes "ror apikey is not bound to a cluster identity")
          ((codes "type", text identity_type) ∷ []) l,
    )
    else (trim_space user_name, l)

-- The ellipsis is the three bytes of U+2026.
unfoldable pub truncate : Text → ℕ → Text
truncate s n = if leb (length s) n then s else take n s ++ 226 ∷ 128 ∷ 166 ∷ []

abbrev pub no_fields : ClusterFields
no_fields = record { cluster_id = []; cluster_name = []; environment = [] }

abbrev pub trimmed : ClusterFields → ClusterFields
trimmed f = record {
  cluster_id = trim_space f.cluster_id;
  cluster_name = trim_space f.cluster_name;
  environment = trim_space f.environment;
}

abbrev pub decoded_fields : Text → Text ⊎ ClusterFields → Log → ClusterFields × Log
decoded_fields body (inl err) l = (
  no_fields,
  report (codes "ror cluster decode failed")
      ((codes "err", text err) ∷ (codes "body", text (truncate body 256)) ∷ []) l,
)
decoded_fields body (inr f) l = (trimmed f, l)

unfoldable pub ror_cluster_lookup : (url : Text) → ClusterReply → Log → ClusterFields × Log
ror_cluster_lookup url (unbuilt err) l = (
  no_fields,
  report (codes "ror cluster fetch build request failed") ((codes "err", text err) ∷ []) l,
)
ror_cluster_lookup url (unanswered err) l = (
  no_fields,
  report (codes "ror cluster fetch failed") ((codes "url", text url) ∷ (codes "err", text err) ∷ [])
      l,
)
ror_cluster_lookup url (answered status full decoded) l =
    let body = take 16384 full in
    if leb 300 status
    then (
      no_fields,
      report (codes "ror cluster fetch non-2xx")
          ((codes "url", text url)
            ∷ (codes "status", number status)
            ∷ (codes "body", text (truncate body 512))
            ∷ [])
          l,
    )
    else decoded_fields body (decoded body) l

-- strings.TrimRight(endpoint, "/").
unfoldable pub trim_slashes : Text → Text
trim_slashes [] = []
trim_slashes (b ∷ s) =
    let rest = trim_slashes s in if rest == [] && (b ∷ []) == codes "/" then [] else b ∷ rest

-- A slug that the cluster lookup does not give is replaced by the uid.
abbrev pub identity_of : Text → ClusterFields → RorIdentity
identity_of uid f = record {
  uid = uid;
  slug = if f.cluster_id == [] then uid else f.cluster_id;
  name = f.cluster_name;
  environment = f.environment;
}

unfoldable pub fetch_ror_identity :
    (endpoint : Text) → SelfReply → ClusterReply → Log → RorIdentity × Log
fetch_ror_identity endpoint s c l =
    let (uid, m) = ror_self_lookup s l in
    let (fields, k) =
      ror_cluster_lookup (trim_slashes endpoint ++ codes "/v1/clusters/" ++ uid) c m in
    if uid == [] then (no_identity, m) else (identity_of uid fields, k)

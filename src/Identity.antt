-- ===== src/Identity.antt =====
-- The identity of the cluster: cmd/scam/rorself.go, and the resolve functions of cmd/scam/main.go.
-- `Identity.Lookup` models the lookups at ROR, `Interval` the refresh interval.
pub mod Lookup
pub mod Kept
pub mod Refresh
mod Tests
use scam.Base.{
  ℕ, min, Bool, not, ◌&&◌, List, [], ◌∷◌, ◌++◌, Text, codes, if◌then◌else◌, text_eq, ◌==◌,
}
use scam.Base.Duration.{minute}
use scam.Capture.Trim.{trim_space}
use scam.Emit.{Log, text, report}
use Lookup.{
  Env, RorIdentity, no_identity, identity_beq, Round, resolve_ror_api_key, fetch_ror_identity,
}

unfoldable pub resolve_cluster_name : Env → Text → Text
resolve_cluster_name env ror_name =
    if not (ror_name == []) then ror_name else env (codes "CLUSTER_NAME")

-- `kube_system_uid` is the thunk's result.
unfoldable pub resolve_cluster_id : Env → Text → Text
resolve_cluster_id env kube_system_uid =
    let v = trim_space (env (codes "CLUSTER_ID")) in if not (v == []) then v else kube_system_uid

unfoldable pub resolve_environment : Env → Text → Text
resolve_environment env ror_env = if not (ror_env == []) then ror_env else env (codes "ENVIRONMENT")

-- An attribute of the set: a string, or the group ror_metadata.
pub data IdentityAttr : Type 0 where
  string : Text → Text → IdentityAttr
  group : Text → List (Text × Text) → IdentityAttr

-- `version` and `commit` are set when the program is built.
pub record Build : Type 0 where
  pub version : Text
  pub commit : Text

abbrev pub string_unless_empty : Text → Text → List IdentityAttr
string_unless_empty key value = if not (value == []) then string key value ∷ [] else []

unfoldable pub cluster_attr_set :
    Build → (cluster_name cluster_id environment : Text) → RorIdentity → List IdentityAttr
cluster_attr_set build cluster_name cluster_id environment ror =
    string_unless_empty (codes "cluster") cluster_name
    ++ (string_unless_empty (codes "cluster_id") cluster_id
        ++ (string_unless_empty (codes "environment") environment
            ++ ((if not (ror.uid == [])
                  then group (codes "ror_metadata") (
                      (codes "cluster_id", ror.slug)
                      ∷ (codes "cluster_uid", ror.uid)
                      ∷ (codes "cluster_name", ror.name)
                      ∷ (codes "env", ror.environment)
                      ∷ [])
                    ∷ []
                  else [])
                ++ string (codes "version") build.version
                  ∷ string (codes "commit") build.commit
                  ∷ [])))

-- What is fixed while the loop runs.
pub record Setting : Type 0 where
  pub env : Env
  pub build : Build
  pub endpoint : Text
  pub cluster_id : Text

-- The identity that the loop holds, and the attributes that the handler stamps on each record.
pub record Identity : Type 0 where
  pub current : RorIdentity
  pub cluster_attrs : List IdentityAttr

-- The attributes that main and the loop set for an identity.
unfoldable pub attrs_of : Setting → RorIdentity → List IdentityAttr
attrs_of s id =
    cluster_attr_set s.build (resolve_cluster_name s.env id.name) s.cluster_id
      (resolve_environment s.env id.environment) id

unfoldable pub start : Setting → RorIdentity → Identity
start s id = record { current = id; cluster_attrs = attrs_of s id }

abbrev pub is_news : RorIdentity → RorIdentity → Bool
is_news id current = not (identity_beq id no_identity) && not (identity_beq id current)

-- The part of a round after the lookup.
unfoldable pub adopt : Setting → Identity → RorIdentity → Log → Identity × Log
adopt s x id l =
    if is_news id x.current
    then (
      record { current = id; cluster_attrs = attrs_of s id },
      report (codes "ror identity updated")
          ((codes "ror_cluster_uid", text id.uid)
            ∷ (codes "previous_ror_cluster_uid", text x.current.uid)
            ∷ (codes "ror_cluster_id", text id.slug)
            ∷ (codes "cluster", text (resolve_cluster_name s.env id.name))
            ∷ (codes "environment", text (resolve_environment s.env id.environment))
            ∷ [])
          l,
    )
    else (x, l)

-- One firing of the timer of rorIdentityLoop.
unfoldable pub on_round : Setting → Identity → Round → Log → Identity × Log
on_round s x r l =
    let (apikey, m) = resolve_ror_api_key s.env r.secret l in
    let (id, k) = fetch_ror_identity s.endpoint r.self r.cluster m in
    if not (apikey == []) then adopt s x id k else (x, m)

unfoldable pub rounds : Setting → Identity → List Round → Log → Identity × Log
rounds s x [] l = (x, l)
rounds s x (r ∷ rs) l = let (y, m) = on_round s x r l in rounds s y rs m

abbrev pub ror_retry_interval : ℕ
ror_retry_interval = 600000000000

-- The closure `next`; the interval is positive here.
unfoldable pub next_delay : ℕ → RorIdentity → ℕ
next_delay interval current =
    if identity_beq current no_identity then min ror_retry_interval interval else interval

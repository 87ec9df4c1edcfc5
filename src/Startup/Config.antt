-- ===== src/Startup/Config.antt =====
-- What `main` of cmd/scam/main.go finds when it starts, and its first steps: loadConfig, the
-- identity at boot, and the lines on the custom resources.
use scam.Base.{
  Bool, Option, none, some, List, [], ◌∷◌, ◌++◌, Text, codes, if◌then◌else◌, text_eq, ◌==◌,
}
use scam.Capture.Trim.{trim_space}
use scam.Kube.{Unstructured, Pod, Service, EndpointSlice, Ingress, IngressClass}
use scam.Dynamic.{Nested}
use scam.Emit.{Log, texts, report}
use scam.Pod.Owner.{ReplicaSets}
use scam.Refs.{Services}
use scam.Gateway.{Gvr, gvr_strings}
use scam.Informer.{Any}
use scam.Snapshot.{Listed}
use scam.Discovery.{Served}
use scam.Tuning.{Floats}
use scam.Identity.{Build}
use scam.Identity.Lookup.{
  Env, RorIdentity, no_identity, Round, resolve_ror_api_key, fetch_ror_identity, trim_slashes,
}

pub record Flags : Type 0 where
  pub kubeconfig : Text
  pub show_version : Bool

-- What client-go answers: whether there is an in-cluster config, and the errors of the calls that
-- can fail, with no value where they succeed.
pub record Clients : Type 0 where
  pub in_cluster : Bool
  pub build_config : Text → Option Text
  pub clientset : Option Text
  pub dynamic_client : Option Text
  pub discovery_client : Option Text
  pub synced : Bool

-- The caches of the informers when the caches have synced.
pub record Caches : Type 0 where
  pub pods : Listed Pod
  pub services : Listed Service
  pub endpoint_slices : Listed EndpointSlice
  pub ingresses : Listed Ingress
  pub ingress_classes : Listed IngressClass
  pub gateway : Text → Option (List (Any Unstructured))
  pub traefik : Text → Option (List (Any Unstructured))

-- All that main is given. `boot` is what the Secret and ROR answer at boot, `kube_system_uid` the
-- uid of the namespace kube-system, `order` the order in which a map yields the API versions.
pub record Given : Type 1 where
  pub flags : Flags
  pub env : Env
  pub build : Build
  pub floats : Floats
  pub default_qps : floats.Float32
  pub clients : Clients
  pub boot : Round
  pub kube_system_uid : Text
  pub served : Served
  pub order : List Text
  pub gvr_string : Gvr → Text
  pub lib : Nested
  pub replica_sets : ReplicaSets
  pub get_service : Services
  pub caches : Caches
  pub snapshot_id : Text

-- The error, if any.
unfoldable pub load_config : Clients → (kubeconfig : Text) → Option Text
load_config c kubeconfig =
    if c.in_cluster
    then none
    else if kubeconfig == []
    then some (codes "no in-cluster config and no kubeconfig given")
    else c.build_config kubeconfig

unfoldable pub ror_endpoint : Env → Text
ror_endpoint env = trim_space (env (codes "ROR_API_ENDPOINT"))

unfoldable pub boot_identity : Env → Round → Log → RorIdentity × Log
boot_identity env r l =
    let endpoint = ror_endpoint env in
    let (apikey, m) = resolve_ror_api_key env r.secret l in
    if endpoint == []
    then (no_identity, l)
    else if apikey == []
    then (no_identity, m)
    else fetch_ror_identity endpoint r.self r.cluster m

-- The line on the resources of a group that were found.
abbrev pub detected : (found missing : Text) → List Gvr → Log → Log
detected found missing [] l = report missing [] l
detected found missing (g ∷ gs) l =
    report found ((codes "resources", texts (gvr_strings (g ∷ gs))) ∷ []) l

unfoldable pub endpoint_at : (callcenter_url path : Text) → Text
endpoint_at callcenter_url path = trim_slashes callcenter_url ++ path

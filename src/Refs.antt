-- ===== src/Refs.antt =====
-- What refers to a Service: internal/collector/refs.go, and TraefikBackends of traefik.go.
pub mod Keys
pub mod Targets
pub mod Refresh
mod Tests
use scam.Base.{
  ℕ, Bool, true, false, not, ◌&&◌, ◌||◌, Option, none, some, List, [], ◌∷◌, ◌++◌, map, Text, codes,
  length, ltb, Eq, nat_eq, if◌then◌else◌, text_eq, ◌==◌, text_beq_iff, text_beq, contains,
  unique_from, ◌≡◌, ◌↔◌, arith,
}
use scam.Kube.{
  Fields, Unstructured, Service, Ingress, IngressBackend, IngressRule, HttpPath, ServiceBackend,
}
use scam.Dynamic.{Nested, u_str, u_slice, maps}
use scam.Emit.{BackendTarget, Log}
use scam.Service.{emit_service}

abbrev pub target_beq : BackendTarget → BackendTarget → Bool
target_beq a b = text_beq a.namespace b.namespace && text_beq a.name b.name

pub target_beq_iff : (a b : BackendTarget) → (target_beq a b ≡ true) ↔ (a ≡ b)
target_beq_iff a b =
    ground (arith, text_beq_iff a.namespace b.namespace, text_beq_iff a.name b.name)

instance abbrev pub target_eq : Eq BackendTarget
target_eq = record { same = target_beq; same_iff = target_beq_iff }

abbrev pub target_key : BackendTarget → Text
target_key t = t.namespace ++ b'/' ∷ t.name

unfoldable pub backend_targets_to_keys : List BackendTarget → List Text
backend_targets_to_keys targets = unique_from [] (map target_key targets)

-- The closure `add` of IngressBackends.
abbrev pub add : Text → List BackendTarget → Option ServiceBackend → List BackendTarget
add namespace out none = out
add namespace out (some svc) =
    if not (svc.name == [])
    then out ++ record { namespace = namespace; name = svc.name } ∷ []
    else out

unfoldable pub add_paths : Text → List BackendTarget → List HttpPath → List BackendTarget
add_paths namespace out [] = out
add_paths namespace out (p ∷ ps) = add_paths namespace (add namespace out p.backend.service) ps

abbrev pub add_http : Text → List BackendTarget → Option (List HttpPath) → List BackendTarget
add_http namespace out none = out
add_http namespace out (some ps) = add_paths namespace out ps

unfoldable pub add_rules : Text → List BackendTarget → List IngressRule → List BackendTarget
add_rules namespace out [] = out
add_rules namespace out (r ∷ rs) = add_rules namespace (add_http namespace out r.http) rs

abbrev pub add_default : Text → List BackendTarget → Option IngressBackend → List BackendTarget
add_default namespace out none = out
add_default namespace out (some b) = add namespace out b.service

unfoldable pub ingress_backends : Ingress → List BackendTarget
ingress_backends ing =
    add_rules ing.meta.namespace (add_default ing.meta.namespace [] ing.default_backend) ing.rules

unfoldable pub ingress_backend_keys : Ingress → List Text
ingress_backend_keys ing = backend_targets_to_keys (ingress_backends ing)

module _ (lib : Nested) where
  -- One entry of a route: another kind than Service and an entry without a name are passed over.
  unfoldable pub entry_target : Text → Fields → Option BackendTarget
  entry_target route_namespace m =
      let kind = u_str lib m (codes "kind" ∷ []) in
      let name = u_str lib m (codes "name" ∷ []) in
      let ns = u_str lib m (codes "namespace" ∷ []) in
      if not (kind == []) && not (kind == codes "Service")
      then none
      else if name == []
      then none
      else some (record { namespace = if ns == [] then route_namespace else ns; name = name })

  -- The inner loop over the entries of one rule, and the outer one over the rules. RouteBackends and
  -- TraefikBackends differ in the names of the two fields only.
  unfoldable pub entries_from : Text → List BackendTarget → List Fields → List BackendTarget
  entries_from namespace out [] = out
  entries_from namespace out (m ∷ ms) = elim (entry_target namespace m) [
    | none ↦ entries_from namespace out ms
    | some t ↦ entries_from namespace (out ++ t ∷ []) ms
  ]

  unfoldable pub rules_from : Text → Text → List BackendTarget → List Fields → List BackendTarget
  rules_from list namespace out [] = out
  rules_from list namespace out (r ∷ rs) =
      rules_from list namespace (entries_from namespace out (maps (u_slice lib r (list ∷ [])))) rs

  unfoldable pub route_backends : Unstructured → List BackendTarget
  route_backends u =
      rules_from (codes "backendRefs") u.meta.namespace []
        (maps (u_slice lib u.object (codes "spec" ∷ codes "rules" ∷ [])))

  unfoldable pub traefik_backends : Unstructured → List BackendTarget
  traefik_backends u =
      rules_from (codes "services") u.meta.namespace []
        (maps (u_slice lib u.object (codes "spec" ∷ codes "routes" ∷ [])))

  unfoldable pub route_backend_keys : Unstructured → List Text
  route_backend_keys u = backend_targets_to_keys (route_backends u)

  unfoldable pub traefik_backend_keys : Unstructured → List Text
  traefik_backend_keys u = backend_targets_to_keys (traefik_backends u)

unfoldable pub is_route_gvr : Text → Bool
is_route_gvr resource =
    resource == codes "httproutes"
    || resource == codes "grpcroutes"
    || resource == codes "tlsroutes"
    || resource == codes "tcproutes"

-- What ByIndex of an informer's indexer returns for a key.
abbrev pub ByIndex : Type 0 → Type 0
ByIndex A = Text → List A

abbrev pub hits : {A : Type 0} → Text → ByIndex A → Bool
hits k by_index = ltb 0 (length (by_index k))

unfoldable pub any_hits : {A : Type 0} → Text → List (ByIndex A) → Bool
any_hits k [] = false
any_hits k (i ∷ is) = if hits k i then true else any_hits k is

-- The informers that may refer to a Service; the one of the Ingresses may not be set yet.
pub record Indexes : Type 0 where
  pub ingresses : Option (ByIndex Ingress)
  pub gateway : List (ByIndex Unstructured)
  pub traefik : List (ByIndex Unstructured)

abbrev pub ingress_hits : Text → Option (ByIndex Ingress) → Bool
ingress_hits k none = false
ingress_hits k (some i) = hits k i

unfoldable pub service_referenced : Indexes → Text → Text → Bool
service_referenced x namespace name =
    let k = namespace ++ b'/' ∷ name in
    if ingress_hits k x.ingresses
    then true
    else if any_hits k x.gateway
    then true
    else any_hits k x.traefik

-- The lister of Services by namespace and name; no value for an error or a missing one.
abbrev pub Services : Type 0
Services = Text → Text → Option Service

abbrev pub emit_found : Option Service → Log → Log
emit_found none l = l
emit_found (some svc) l = emit_service (codes "EXPOSURE") svc l

-- The loop of RefreshBackendServices with its set.
unfoldable pub refresh_from : Services → List BackendTarget → List BackendTarget → Log → Log
refresh_from get seen [] l = l
refresh_from get seen (t ∷ ts) l =
    let skipped = refresh_from get seen ts l in
    let emitted = refresh_from get (t ∷ seen) ts (emit_found (get t.namespace t.name) l) in
    if contains seen t then skipped else emitted

-- The loop where the set is nil, for a single target.
unfoldable pub refresh_plain : Services → List BackendTarget → Log → Log
refresh_plain get [] l = l
refresh_plain get (t ∷ ts) l = refresh_plain get ts (emit_found (get t.namespace t.name) l)

abbrev pub refresh_listed : Services → List BackendTarget → Log → Log
refresh_listed get targets l =
    if length targets == 0
    then l
    else if ltb 1 (length targets)
    then refresh_from get [] targets l
    else refresh_plain get targets l

unfoldable pub refresh_backend_services : Option Services → List BackendTarget → Log → Log
refresh_backend_services none targets l = l
refresh_backend_services (some get) targets l = refresh_listed get targets l

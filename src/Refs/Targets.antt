-- ===== src/Refs/Targets.antt =====
-- The Services that an object names as backends, against its fields.
use scam.Base.{
  ◌≡◌, ◌≢◌, ◌↔◌, ◌⊎◌, inl, inr, Option, none, some, List, [], ◌∷◌, ◌++◌, arith, Text, codes, In,
  text_beq_iff, text_eq, Option-cases,
}
use scam.Kube.{Fields, Unstructured, Ingress, IngressBackend, IngressRule, HttpPath, ServiceBackend}
use scam.Dynamic.{Nested, u_str, u_slice, maps}
use scam.Emit.{BackendTarget}
use scam.Refs.{
  add, add_paths, add_http, add_rules, add_default, ingress_backends, entry_target, entries_from,
  rules_from, route_backends, traefik_backends,
}

-- Some element of the list has the property.
abbrev pub AnyOf : {A : Type 0} → (A → Type 0) → List A → Type 0
AnyOf P [] = ⊥
AnyOf P (x ∷ xs) = P x ⊎ AnyOf P xs

In-append : (t : BackendTarget) (xs ys : List BackendTarget) → In t (xs ++ ys) ↔ (In t xs ⊎ In t ys)
In-append t [] ys = ground arith
In-append t (x ∷ xs) ys = ground (arith, In-append t xs ys)

-- A backend that is a Service with a name: the target is that Service, in the given namespace.
abbrev pub Names : Text → BackendTarget → Option ServiceBackend → Type 0
Names namespace t none = ⊥
Names namespace t (some svc) = (svc.name ≢ []) × (t.namespace ≡ namespace) × (t.name ≡ svc.name)

abbrev pub DefaultNames : Text → BackendTarget → Option IngressBackend → Type 0
DefaultNames namespace t none = ⊥
DefaultNames namespace t (some b) = Names namespace t b.service

abbrev pub PathsName : Text → BackendTarget → Option (List HttpPath) → Type 0
PathsName namespace t none = ⊥
PathsName namespace t (some ps) = AnyOf (λ p. Names namespace t p.backend.service) ps

-- The default backend or the backend of a path of some rule.
abbrev pub IngressNames : Ingress → BackendTarget → Type 0
IngressNames ing t =
    DefaultNames ing.meta.namespace t ing.default_backend
    ⊎ AnyOf (λ r. PathsName ing.meta.namespace t r.http) ing.rules

module _ (namespace : Text) (t : BackendTarget) where
  single_iff :
      (svc : ServiceBackend)
      → (record { namespace = namespace; name = svc.name } ≡ t)
        ↔ ((t.namespace ≡ namespace) × (t.name ≡ svc.name))
  single_iff svc = ground arith

  add_iff :
      (out : List BackendTarget) (b : Option ServiceBackend)
      → In t (add namespace out b) ↔ (In t out ⊎ Names namespace t b)
  add_iff out none = ground arith
  add_iff out (some svc) = ground (
    arith,
    text_beq_iff svc.name [],
    single_iff svc,
    In-append t out (record { namespace = namespace; name = svc.name } ∷ []),
  )

  add_paths_iff :
      (ps : List HttpPath) (out : List BackendTarget)
      → In t (add_paths namespace out ps)
        ↔ (In t out ⊎ AnyOf (λ p. Names namespace t p.backend.service) ps)
  unfolding add_paths
  add_paths_iff [] out = ground arith
  add_paths_iff (p ∷ ps) out =
      ground (
        arith,
        add_iff out p.backend.service,
        add_paths_iff ps (add namespace out p.backend.service),
      )

  add_http_iff :
      (http : Option (List HttpPath)) (out : List BackendTarget)
      → In t (add_http namespace out http) ↔ (In t out ⊎ PathsName namespace t http)
  add_http_iff none out = ground arith
  add_http_iff (some ps) out = add_paths_iff ps out

  add_rules_iff :
      (rs : List IngressRule) (out : List BackendTarget)
      → In t (add_rules namespace out rs)
        ↔ (In t out ⊎ AnyOf (λ r. PathsName namespace t r.http) rs)
  unfolding add_rules
  add_rules_iff [] out = ground arith
  add_rules_iff (r ∷ rs) out =
      ground (arith, add_http_iff r.http out, add_rules_iff rs (add_http namespace out r.http))

  add_default_iff :
      (b : Option IngressBackend) → In t (add_default namespace [] b) ↔ DefaultNames namespace t b
  add_default_iff none = ground arith
  add_default_iff (some b) = ground (arith, add_iff [] b.service)

ingress_backends_iff :
    (ing : Ingress) (t : BackendTarget) → In t (ingress_backends ing) ↔ IngressNames ing t
unfolding ingress_backends
ingress_backends_iff ing t = ground (
  arith,
  add_default_iff ing.meta.namespace t ing.default_backend,
  add_rules_iff ing.meta.namespace t ing.rules
      (add_default ing.meta.namespace [] ing.default_backend),
)

-- An entry of a route: a Service, by its kind or without one, with a name; the namespace is its own
-- where it has one, else that of the route.
abbrev pub EntryNames : Nested → Text → BackendTarget → Fields → Type 0
EntryNames lib namespace t m =
    let kind = u_str lib m (codes "kind" ∷ []) in
    let own = u_str lib m (codes "namespace" ∷ []) in
    ((kind ≡ []) ⊎ (kind ≡ codes "Service"))
    × (t.name ≢ [])
    × (t.name ≡ u_str lib m (codes "name" ∷ []))
    × (((own ≡ []) × (t.namespace ≡ namespace)) ⊎ ((own ≢ []) × (t.namespace ≡ own)))

-- An entry, under the field `list`, of a rule, under the field `rules` of the spec.
abbrev pub RouteNames : Nested → (rules list : Text) → Unstructured → BackendTarget → Type 0
RouteNames lib rules list u t =
    AnyOf (λ r. AnyOf (EntryNames lib u.meta.namespace t) (maps (u_slice lib r (list ∷ []))))
      (maps (u_slice lib u.object (codes "spec" ∷ rules ∷ [])))

module _ (lib : Nested) (namespace : Text) (t : BackendTarget) where
  entry_target_iff :
      (m : Fields) → (entry_target lib namespace m ≡ some t) ↔ EntryNames lib namespace t m
  unfolding entry_target
  entry_target_iff m = ground (
    arith,
    text_beq_iff (u_str lib m (codes "kind" ∷ [])) [],
    text_beq_iff (u_str lib m (codes "kind" ∷ [])) (codes "Service"),
    text_beq_iff (u_str lib m (codes "name" ∷ [])) [],
    text_beq_iff (u_str lib m (codes "namespace" ∷ [])) [],
  )

  entries_from_iff :
      (ms : List Fields) (out : List BackendTarget)
      → In t (entries_from lib namespace out ms)
        ↔ (In t out ⊎ AnyOf (EntryNames lib namespace t) ms)
  unfolding entries_from
  entries_from_iff [] out = ground arith
  entries_from_iff (m ∷ ms) out = elim (Option-cases (entry_target lib namespace m)) [
    | inl e ↦ ground (arith, entry_target_iff m, entries_from_iff ms out)
    | inr (u, e) ↦
        rw (e, entries_from, In)
          (ground (
            arith,
            entry_target_iff m,
            In-append t out (u ∷ []),
            entries_from_iff ms (out ++ u ∷ []),
          ))
  ]

  rules_from_iff :
      (list : Text) (rs : List Fields) (out : List BackendTarget)
      → In t (rules_from lib list namespace out rs) ↔ (
          In t out
          ⊎ AnyOf (λ r. AnyOf (EntryNames lib namespace t) (maps (u_slice lib r (list ∷ [])))) rs)
  unfolding rules_from
  rules_from_iff list [] out = ground arith
  rules_from_iff list (r ∷ rs) out = ground (
    arith,
    entries_from_iff (maps (u_slice lib r (list ∷ []))) out,
    rules_from_iff list rs (entries_from lib namespace out (maps (u_slice lib r (list ∷ [])))),
  )

-- The backends of an Ingress, a Gateway API route, and a Traefik route are exactly the Services that
-- their fields name: the default backend and the paths of the rules of the Ingress, in its own
-- namespace; the entries of the routes that have a name and the kind Service or none, in the
-- namespace that they give or else that of the route.
pub backends_iff :
    (lib : Nested) (ing : Ingress) (u : Unstructured) (t : BackendTarget)
    → (In t (ingress_backends ing) ↔ IngressNames ing t)
      × (In t (route_backends lib u) ↔ RouteNames lib (codes "rules") (codes "backendRefs") u t)
      × (In t (traefik_backends lib u) ↔ RouteNames lib (codes "routes") (codes "services") u t)
unfolding route_backends traefik_backends
backends_iff lib ing u t = (
  ingress_backends_iff ing t,
  ground (
    arith,
    rules_from_iff lib u.meta.namespace t (codes "backendRefs")
        (maps (u_slice lib u.object (codes "spec" ∷ codes "rules" ∷ []))) [],
  ),
  ground (
    arith,
    rules_from_iff lib u.meta.namespace t (codes "services")
        (maps (u_slice lib u.object (codes "spec" ∷ codes "routes" ∷ []))) [],
  ),
)

-- ===== src/Transform/Custom.antt =====
-- No record of a custom resource depends on what TrimUnstructured removes.
use scam.Base.{
  ◌≡◌, refl, ap, ◌∙◌, true, List, [], ◌∷◌, Text, codes, none, some, map, unique_from, text_eq,
}
use scam.Kube.{Unstructured, Items, nil}
use scam.Dynamic.{Nested, u_slice, u_string_slice, maps}
use scam.Dynamic.Removal.{IsRemoving, parts}
use scam.Emit.{Log}
use scam.Gateway.{
  Gvr, listener, address, parent_ref, collect_from, parse_listeners, parse_addresses, gateway_attrs,
  gateway_class_attrs, parse_parent_refs, collect_route_backends, route_attrs, emit_gateway,
  emit_gateway_class, emit_route, emit_gateway_api,
}
use scam.Traefik.{all_hosts, extract_traefik_hosts, traefik_attrs, emit_traefik}
use scam.Refs.{route_backends, traefik_backends, rules_from}
use scam.Transform.{trim_unstructured}

abbrev conditions : List Text
conditions = codes "status" ∷ codes "conditions" ∷ []

abbrev listeners : List Text
listeners = codes "status" ∷ codes "listeners" ∷ []

abbrev parents : List Text
parents = codes "status" ∷ codes "parents" ∷ []

-- The path parts from the three that are removed.
abbrev IsRead : List Text → Type 0
IsRead path =
    (parts conditions path ≡ true) × (parts listeners path ≡ true) × (parts parents path ≡ true)

module _ (lib : Nested) (r : IsRemoving lib) (u : Unstructured) where
  slice_read :
      (path : List Text)
      → IsRead path
      → lib.nested_slice (trim_unstructured lib u).object path ≡ lib.nested_slice u.object path
  unfolding trim_unstructured
  slice_read path (c, l, p) =
      r.slice_kept _ parents path p
      ∙ r.slice_kept _ listeners path l
      ∙ r.slice_kept _ conditions path c

  text_read :
      (path : List Text)
      → IsRead path
      → lib.nested_string (trim_unstructured lib u).object path ≡ lib.nested_string u.object path
  unfolding trim_unstructured
  text_read path (c, l, p) =
      r.text_kept _ parents path p
      ∙ r.text_kept _ listeners path l
      ∙ r.text_kept _ conditions path c

  texts_read :
      (path : List Text)
      → IsRead path
      → u_string_slice lib (trim_unstructured lib u).object path ≡ u_string_slice lib u.object path
  unfolding trim_unstructured
  texts_read path (c, l, p) =
      ap (λ o. elim o [ none ↦ [] | some s ↦ s ])
        (r.texts_kept _ parents path p
          ∙ r.texts_kept _ listeners path l
          ∙ r.texts_kept _ conditions path c)

  -- What is made of a slice.
  made_of_slice :
      {A : Type 0} (f : Items → A) (path : List Text)
      → IsRead path
      → f (u_slice lib (trim_unstructured lib u).object path) ≡ f (u_slice lib u.object path)
  made_of_slice f path h = ap (λ o. f (elim o [ none ↦ nil | some s ↦ s ])) (slice_read path h)

  listeners-trim : parse_listeners lib (trim_unstructured lib u) ≡ parse_listeners lib u
  unfolding parse_listeners
  listeners-trim =
      made_of_slice (λ xs. map (listener lib) (maps xs)) (codes "spec" ∷ codes "listeners" ∷ [])
        (refl, refl, refl)

  addresses-trim :
      (path : List Text)
      → IsRead path
      → parse_addresses lib (trim_unstructured lib u).object path
        ≡ parse_addresses lib u.object path
  unfolding parse_addresses
  addresses-trim path h = made_of_slice (λ xs. map (address lib) (maps xs)) path h

  gateway_attrs-trim :
      (gvr : Gvr) → gateway_attrs lib gvr (trim_unstructured lib u) ≡ gateway_attrs lib gvr u
  unfolding gateway_attrs trim_unstructured
  gateway_attrs-trim gvr =
      rw
        (
          text_read (codes "spec" ∷ codes "gatewayClassName" ∷ []) (refl, refl, refl),
          listeners-trim,
          addresses-trim (codes "spec" ∷ codes "addresses" ∷ []) (refl, refl, refl),
          addresses-trim (codes "status" ∷ codes "addresses" ∷ []) (refl, refl, refl),
        )
        refl

  gateway_class_attrs-trim :
      (gvr : Gvr)
      → gateway_class_attrs lib gvr (trim_unstructured lib u) ≡ gateway_class_attrs lib gvr u
  unfolding gateway_class_attrs trim_unstructured
  gateway_class_attrs-trim gvr =
      rw (text_read (codes "spec" ∷ codes "controllerName" ∷ []) (refl, refl, refl)) refl

  parent_refs-trim : parse_parent_refs lib (trim_unstructured lib u) ≡ parse_parent_refs lib u
  unfolding parse_parent_refs
  parent_refs-trim =
      made_of_slice (λ xs. map (parent_ref lib) (maps xs)) (codes "spec" ∷ codes "parentRefs" ∷ [])
        (refl, refl, refl)

  backends-trim :
      collect_route_backends lib (trim_unstructured lib u) ≡ collect_route_backends lib u
  unfolding collect_route_backends
  backends-trim =
      made_of_slice (λ xs. collect_from lib [] (maps xs)) (codes "spec" ∷ codes "rules" ∷ [])
        (refl, refl, refl)

  route_attrs-trim :
      (gvr : Gvr) → route_attrs lib gvr (trim_unstructured lib u) ≡ route_attrs lib gvr u
  unfolding route_attrs trim_unstructured
  route_attrs-trim gvr =
      rw
        (
          parent_refs-trim,
          texts_read (codes "spec" ∷ codes "hostnames" ∷ []) (refl, refl, refl),
          backends-trim,
        )
        refl

  route_backends-trim : route_backends lib (trim_unstructured lib u) ≡ route_backends lib u
  unfolding route_backends trim_unstructured
  route_backends-trim =
      made_of_slice (λ xs. rules_from lib (codes "backendRefs") u.meta.namespace [] (maps xs))
        (codes "spec" ∷ codes "rules" ∷ []) (refl, refl, refl)

  traefik_backends-trim : traefik_backends lib (trim_unstructured lib u) ≡ traefik_backends lib u
  unfolding traefik_backends trim_unstructured
  traefik_backends-trim =
      made_of_slice (λ xs. rules_from lib (codes "services") u.meta.namespace [] (maps xs))
        (codes "spec" ∷ codes "routes" ∷ []) (refl, refl, refl)

  hosts-trim : extract_traefik_hosts lib (trim_unstructured lib u) ≡ extract_traefik_hosts lib u
  unfolding extract_traefik_hosts
  hosts-trim =
      made_of_slice (λ xs. unique_from [] (all_hosts lib (maps xs)))
        (codes "spec" ∷ codes "routes" ∷ []) (refl, refl, refl)

  traefik_attrs-trim :
      (gvr : Gvr) → traefik_attrs lib gvr (trim_unstructured lib u) ≡ traefik_attrs lib gvr u
  unfolding traefik_attrs trim_unstructured
  traefik_attrs-trim gvr =
      rw
        (
          texts_read (codes "spec" ∷ codes "entryPoints" ∷ []) (refl, refl, refl),
          hosts-trim,
          text_read (codes "spec" ∷ codes "tls" ∷ codes "secretName" ∷ []) (refl, refl, refl),
          traefik_backends-trim,
        )
        refl

-- With a package unstructured whose RemoveNestedField leaves alone what stands at other paths: the
-- records of all kinds of the Gateway API and of Traefik, and the Services that they refer to, are
-- the same for the trimmed object as for the one that the server sent.
pub emit_custom-trim :
    (lib : Nested) (event : Text) (gvr : Gvr) (u : Unstructured) (l : Log)
    → IsRemoving lib
    → let trimmed = trim_unstructured lib u in
      (emit_gateway_api lib event gvr trimmed l ≡ emit_gateway_api lib event gvr u l)
      × (route_backends lib trimmed ≡ route_backends lib u)
      × (emit_traefik lib event gvr trimmed l ≡ emit_traefik lib event gvr u l)
      × (traefik_backends lib trimmed ≡ traefik_backends lib u)
unfolding emit_gateway_api emit_gateway emit_gateway_class emit_route emit_traefik
emit_custom-trim lib event gvr u l r = (
  rw
      (
        gateway_attrs-trim lib r u gvr,
        gateway_class_attrs-trim lib r u gvr,
        route_attrs-trim lib r u gvr,
      )
      refl,
  route_backends-trim lib r u,
  rw (traefik_attrs-trim lib r u gvr) refl,
  traefik_backends-trim lib r u,
)

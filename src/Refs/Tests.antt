-- ===== src/Refs/Tests.antt =====
-- Backends and keys of sample objects, and the theorems at them.
use scam.Base.{
  ◌≡◌, In, ◌↔◌, refl, true, none, some, List, [], ◌∷◌, Text, codes, contains, unique_from,
  if◌then◌else◌, text_eq,
}
use scam.Kube.{Items, Unstructured, Ingress, null, text, slice, object, nil, cons, end, field}
use scam.Emit.{BackendTarget, put_all}
use scam.Dynamic.{maps}
use scam.Dynamic.Sample.{sample, plain_meta, walk, find}
use scam.Refs.{
  Indexes, ByIndex, Services, backend_targets_to_keys, entry_target, entries_from, rules_from,
  traefik_backends, route_backends, ingress_backend_keys, ingress_backends, add_rules,
  service_referenced, refresh_backend_services, target_eq,
}
use scam.Refs.Targets.{IngressNames, RouteNames, backends_iff}
use scam.Refs.Refresh.{exposures, refresh_backend_services_lem}

-- A Traefik route with a service of its own namespace, one of another, and a TraefikService.
abbrev route : Unstructured
route = record {
  meta = plain_meta (codes "shop") (codes "web");
  object =
      field (codes "spec")
        (object (
          field (codes "routes")
            (slice (cons (object (field (codes "services") (slice services) end)) (cons null nil)))
            end))
        end;
}
  where
    services : Items
    services = cons (object (field (codes "name") (text (codes "cart")) end)) (
        cons (text (codes "x")) (
          cons
            (object (
              field (codes "kind") (text (codes "TraefikService"))
                (field (codes "name") (text (codes "mirror")) end)))
            (cons
              (object (
                field (codes "name") (text (codes "auth"))
                  (field (codes "namespace") (text (codes "core")) end)))
              nil)))

abbrev target : Text → Text → BackendTarget
target ns name = record { namespace = ns; name = name }

traefik_test :
    traefik_backends sample route
    ≡ target (codes "shop") (codes "cart") ∷ target (codes "core") (codes "auth") ∷ []
unfolding traefik_backends rules_from entries_from entry_target maps walk find
traefik_test = refl

abbrev twice : List BackendTarget
twice = target (codes "a") (codes "b") ∷ target (codes "a") (codes "b") ∷ []

abbrev ingress : Ingress
ingress = record {
  meta = plain_meta (codes "a") (codes "front");
  ingress_class_name = none;
  default_backend = some (record {
    service = some (record { name = codes "b"; port_name = []; port_number = 80 });
    resource = none;
  });
  rules = [];
  tls = [];
  load_balancer = [];
}

abbrev by_index : ByIndex Ingress
by_index k = if contains (ingress_backend_keys ingress) k then ingress ∷ [] else []

abbrev indexes : Indexes
indexes = record { ingresses = some by_index; gateway = []; traefik = [] }

referenced_test : service_referenced indexes (codes "a") (codes "b") ≡ true
unfolding service_referenced ingress_backend_keys backend_targets_to_keys ingress_backends add_rules
    contains unique_from
referenced_test = refl

abbrev named : BackendTarget
named = target (codes "a") (codes "b")

backends_iff_example :
    (In named (ingress_backends ingress) ↔ IngressNames ingress named)
    × (In named (route_backends sample route)
        ↔ RouteNames sample (codes "rules") (codes "backendRefs") route named)
    × (In named (traefik_backends sample route)
        ↔ RouteNames sample (codes "routes") (codes "services") route named)
backends_iff_example = backends_iff sample ingress route named

abbrev nobody : Services
nobody ns name = none

refresh_backend_services_lem_example :
    refresh_backend_services (some nobody) twice (record { next_event_id = 0; records = [] })
    ≡ put_all (exposures nobody (unique_from [] twice)) (record { next_event_id = 0; records = [] })
refresh_backend_services_lem_example =
    refresh_backend_services_lem nobody twice (record { next_event_id = 0; records = [] })

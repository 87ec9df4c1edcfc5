-- ===== src/Watch/Extending.antt =====
-- Each handler that main registers only adds to the log, under consecutive event ids.
use scam.Base.{
  inl, inr, Bool, true, false, Option, none, some, List, [], ◌∷◌, Text, Bool-cases, Option-cases,
  if◌then◌else◌, codes, text_beq,
}
use scam.Kube.{Pod, Unstructured}
use scam.Dynamic.{Nested}
use scam.Emit.{Attrs, Log, BackendTarget, stamped, emit, put}
use scam.Emit.Ids.{Extends, Extends-refl, Extends-trans, put-Extends, put_all-Extends}
use scam.Pod.{
  ContainerRef, emit_pod, emit_pod_delete, delete_containers, delete_attrs, is_unchanged, previous,
  collect_containers,
}
use scam.Pod.Owner.{ReplicaSets, pod_owner}
use scam.Pod.Changes.{emit_containers-kept}
use scam.Service.{emit_service, emit_service_delete}
use scam.EndpointSlice.{emit_endpoint_slice, emit_endpoint_slice_delete}
use scam.Ingress.{emit_ingress, emit_ingress_delete, emit_ingress_class, emit_ingress_class_delete}
use scam.Refs.{
  Services, ingress_backends, route_backends, traefik_backends, is_route_gvr,
  refresh_backend_services,
}
use scam.Refs.Refresh.{refresh_backend_services_lem}
use scam.Gateway.{
  Gvr, gateway_attrs, gateway_class_attrs, route_attrs, emit_gateway, emit_gateway_class,
  emit_route, emit_gateway_api, emit_gateway_api_delete,
}
use scam.Traefik.{emit_traefik, emit_traefik_delete}
use scam.Informer.{Notice, added, updated, deleted, Handlers, as_typed, extract_deleted, on_events}
use scam.Watch.{
  Setting, pod_handlers, service_handlers, endpoint_slice_handlers, ingress_handlers,
  ingress_class_handlers, gateway_handlers, traefik_handlers,
}

emit-Extends :
    (message kind : Text) (attrs : Attrs) (l : Log) → Extends l (emit message kind attrs l)
unfolding put
emit-Extends message kind attrs l = put-Extends (stamped message kind attrs) l

-- Handlers all of whose calls extend the log.
pub record IsExtending {A : Type 0} (h : Handlers A Log) : Type 0 where
  pub on_add_update :
      (event : Text) (a : A) (old : Option A) (l : Log) → Extends l (h.add_update event a old l)
  pub on_delete : (a : A) (l : Log) → Extends l (h.delete a l)

pub on_events-Extends :
    {A : Type 0} (h : Handlers A Log)
    → IsExtending h
    → (synced : Bool) (n : Notice A) (l : Log) → Extends l (on_events h synced n l)
unfolding on_events
on_events-Extends h e false n l = Extends-refl l
on_events-Extends h e true (added a) l = elim (Option-cases (as_typed a)) [
  | inl q ↦ rw q (Extends-refl l)
  | inr (b, q) ↦ rw q (e.on_add_update (codes "ADD") b none l)
]
on_events-Extends h e true (updated old new) l = elim (Option-cases (as_typed new)) [
  | inl q ↦ rw q (Extends-refl l)
  | inr (b, q) ↦ rw q (e.on_add_update (codes "UPDATE") b (as_typed old) l)
]
on_events-Extends h e true (deleted a) l = elim (Option-cases (extract_deleted a)) [
  | inl q ↦ rw q (Extends-refl l)
  | inr (b, q) ↦ rw q (e.on_delete b l)
]

emit_pod-Extends :
    (sets : ReplicaSets) (event : Text) (p : Pod) (old : Option Pod) (l : Log)
    → Extends l (emit_pod sets event p old l).1
unfolding emit_pod
emit_pod-Extends sets event p old l = elim (Bool-cases (is_unchanged p old)) [
  | inl e ↦ rw e (Extends-refl l)
  | inr e ↦
      rw
        (
          e,
          emit_containers-kept event p (pod_owner sets p) (previous p old) 0 (collect_containers p)
              l,
        )
        (put_all-Extends _ l)
]

delete_containers-Extends :
    (p : Pod) (owner : Text × Text) (cs : List ContainerRef) (l : Log)
    → Extends l (delete_containers p owner cs l)
unfolding delete_containers
delete_containers-Extends p owner [] l = Extends-refl l
delete_containers-Extends p owner (c ∷ cs) l =
    Extends-trans (emit-Extends (codes "DELETE") (codes "Container") (delete_attrs p owner c) l)
      (delete_containers-Extends p owner cs _)

refresh-Extends :
    (get : Option Services) (ts : List BackendTarget) (l : Log)
    → Extends l (refresh_backend_services get ts l)
unfolding refresh_backend_services
refresh-Extends none ts l = Extends-refl l
refresh-Extends (some get) ts l = rw (refresh_backend_services_lem get ts l) (put_all-Extends _ l)

pub pods-IsExtending : (x : Setting) → IsExtending (pod_handlers x)
unfolding emit_pod_delete
pods-IsExtending x = record {
  on_add_update = emit_pod-Extends x.replica_sets;
  on_delete =
      λ p l. delete_containers-Extends p (pod_owner x.replica_sets p) (collect_containers p) l;
}

pub services-IsExtending : IsExtending service_handlers
unfolding emit_service emit_service_delete
services-IsExtending = record {
  on_add_update = λ event s old l. emit-Extends _ _ _ l;
  on_delete = λ s l. emit-Extends _ _ _ l;
}

pub endpoint_slices-IsExtending : IsExtending endpoint_slice_handlers
unfolding emit_endpoint_slice emit_endpoint_slice_delete
endpoint_slices-IsExtending = record {
  on_add_update = λ event s old l. emit-Extends _ _ _ l;
  on_delete = λ s l. emit-Extends _ _ _ l;
}

pub ingresses-IsExtending : (x : Setting) → IsExtending (ingress_handlers x)
unfolding emit_ingress emit_ingress_delete
ingresses-IsExtending x = record {
  on_add_update = λ event i old l.
      Extends-trans (emit-Extends _ _ _ l) (refresh-Extends x.services (ingress_backends i) _);
  on_delete = λ i l. emit-Extends _ _ _ l;
}

pub ingress_classes-IsExtending : IsExtending ingress_class_handlers
unfolding emit_ingress_class emit_ingress_class_delete
ingress_classes-IsExtending = record {
  on_add_update = λ event s old l. emit-Extends _ _ _ l;
  on_delete = λ s l. emit-Extends _ _ _ l;
}

if-Extends : (b : Bool) (l k m : Log) → Extends l k → Extends l m → Extends l (if b then k else m)
if-Extends true l k m h j = h
if-Extends false l k m h j = j

emit_gateway_api-Extends :
    (lib : Nested) (event : Text) (gvr : Gvr) (u : Unstructured) (l : Log)
    → Extends l (emit_gateway_api lib event gvr u l)
unfolding emit_gateway_api emit_gateway emit_gateway_class emit_route
emit_gateway_api-Extends lib event gvr u l =
    if-Extends (text_beq gvr.resource (codes "gateways")) l _ _
      (emit-Extends event (codes "Gateway") (gateway_attrs lib gvr u) l)
      (if-Extends (text_beq gvr.resource (codes "gatewayclasses")) l _ _
        (emit-Extends event (codes "GatewayClass") (gateway_class_attrs lib gvr u) l)
        (if-Extends (text_beq gvr.resource (codes "httproutes")) l _ _
          (emit-Extends event (codes "HTTPRoute") (route_attrs lib gvr u) l)
          (if-Extends (text_beq gvr.resource (codes "grpcroutes")) l _ _
            (emit-Extends event (codes "GRPCRoute") (route_attrs lib gvr u) l)
            (if-Extends (text_beq gvr.resource (codes "tlsroutes")) l _ _
              (emit-Extends event (codes "TLSRoute") (route_attrs lib gvr u) l)
              (if-Extends (text_beq gvr.resource (codes "tcproutes")) l _ _
                (emit-Extends event (codes "TCPRoute") (route_attrs lib gvr u) l)
                (Extends-refl l))))))

pub gateway-IsExtending : (x : Setting) (gvr : Gvr) → IsExtending (gateway_handlers x gvr)
unfolding emit_gateway_api_delete
gateway-IsExtending x gvr = record {
  on_add_update = λ event u old l. Extends-trans (emit_gateway_api-Extends x.lib event gvr u l) (
      if-Extends (is_route_gvr gvr.resource) _ _ _
        (refresh-Extends x.services (route_backends x.lib u) _) (Extends-refl _));
  on_delete = λ u l. emit-Extends _ _ _ l;
}

pub traefik-IsExtending : (x : Setting) (gvr : Gvr) → IsExtending (traefik_handlers x gvr)
unfolding emit_traefik emit_traefik_delete
traefik-IsExtending x gvr = record {
  on_add_update = λ event u old l.
      Extends-trans (emit-Extends _ _ _ l)
        (refresh-Extends x.services (traefik_backends x.lib u) _);
  on_delete = λ u l. emit-Extends _ _ _ l;
}

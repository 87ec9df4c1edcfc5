-- ===== src/Watch.antt =====
-- The live stream: the handlers that main of cmd/scam/main.go registers with the informers, each
-- with what it calls, and the notices that they receive, in any order.
pub mod Extending
pub mod Stream
pub mod Exposed
mod Tests
use scam.Base.{Bool, Option, List, [], ◌∷◌, if◌then◌else◌}
use scam.Kube.{Pod, Service, EndpointSlice, Ingress, IngressClass, Unstructured}
use scam.Dynamic.{Nested}
use scam.Emit.{Log}
use scam.Pod.{emit_pod, emit_pod_delete}
use scam.Pod.Owner.{ReplicaSets}
use scam.Service.{emit_service, emit_service_delete}
use scam.EndpointSlice.{emit_endpoint_slice, emit_endpoint_slice_delete}
use scam.Ingress.{emit_ingress, emit_ingress_delete, emit_ingress_class, emit_ingress_class_delete}
use scam.Refs.{
  Services, ingress_backends, route_backends, traefik_backends, is_route_gvr,
  refresh_backend_services,
}
use scam.Gateway.{Gvr, emit_gateway_api, emit_gateway_api_delete}
use scam.Traefik.{emit_traefik, emit_traefik_delete}
use scam.Informer.{Notice, Handlers, on_events}

-- What the handlers read besides the objects: the accessors of unstructured objects, and the
-- listers of `collector.Refs`.
pub record Setting : Type 0 where
  pub lib : Nested
  pub replica_sets : ReplicaSets
  pub services : Option Services

abbrev pub pod_handlers : Setting → Handlers Pod Log
pod_handlers x = record {
  add_update = λ event p old l. (emit_pod x.replica_sets event p old l).1;
  delete = emit_pod_delete x.replica_sets;
}

abbrev pub service_handlers : Handlers Service Log
service_handlers = record {
  add_update = λ event s _ l. emit_service event s l;
  delete = emit_service_delete;
}

abbrev pub endpoint_slice_handlers : Handlers EndpointSlice Log
endpoint_slice_handlers = record {
  add_update = λ event es _ l. emit_endpoint_slice event es l;
  delete = emit_endpoint_slice_delete;
}

abbrev pub ingress_handlers : Setting → Handlers Ingress Log
ingress_handlers x = record {
  add_update = λ event i _ l.
      refresh_backend_services x.services (ingress_backends i) (emit_ingress event i l);
  delete = emit_ingress_delete;
}

abbrev pub ingress_class_handlers : Handlers IngressClass Log
ingress_class_handlers = record {
  add_update = λ event ic _ l. emit_ingress_class event ic l;
  delete = emit_ingress_class_delete;
}

abbrev pub refresh_route : Setting → Gvr → Unstructured → Log → Log
refresh_route x gvr u l =
    if is_route_gvr gvr.resource
    then refresh_backend_services x.services (route_backends x.lib u) l
    else l

abbrev pub gateway_handlers : Setting → Gvr → Handlers Unstructured Log
gateway_handlers x gvr = record {
  add_update = λ event u _ l. refresh_route x gvr u (emit_gateway_api x.lib event gvr u l);
  delete = emit_gateway_api_delete gvr;
}

abbrev pub traefik_handlers : Setting → Gvr → Handlers Unstructured Log
traefik_handlers x gvr = record {
  add_update = λ event u _ l.
      refresh_backend_services x.services (traefik_backends x.lib u)
        (emit_traefik x.lib event gvr u l);
  delete = emit_traefik_delete gvr;
}

-- A notice of one of the informers that have handlers.
pub data Notified : Type 0 where
  of_pod : Notice Pod → Notified
  of_service : Notice Service → Notified
  of_endpoint_slice : Notice EndpointSlice → Notified
  of_ingress : Notice Ingress → Notified
  of_ingress_class : Notice IngressClass → Notified
  of_gateway : Gvr → Notice Unstructured → Notified
  of_traefik : Gvr → Notice Unstructured → Notified

unfoldable pub notify : Setting → Bool → Notified → Log → Log
notify x synced (of_pod n) l = on_events (pod_handlers x) synced n l
notify x synced (of_service n) l = on_events service_handlers synced n l
notify x synced (of_endpoint_slice n) l = on_events endpoint_slice_handlers synced n l
notify x synced (of_ingress n) l = on_events (ingress_handlers x) synced n l
notify x synced (of_ingress_class n) l = on_events ingress_class_handlers synced n l
notify x synced (of_gateway gvr n) l = on_events (gateway_handlers x gvr) synced n l
notify x synced (of_traefik gvr n) l = on_events (traefik_handlers x gvr) synced n l

-- Notices one after the other.
unfoldable pub notify_all : Setting → Bool → List Notified → Log → Log
notify_all x synced [] l = l
notify_all x synced (n ∷ ns) l = notify_all x synced ns (notify x synced n l)

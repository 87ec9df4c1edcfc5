-- ===== src/Transform/Unread.antt =====
-- No record of another kind depends on what the transforms strip.
use scam.Base.{◌≡◌, refl, Text}
use scam.Kube.{Service, EndpointSlice, Ingress, IngressClass}
use scam.Emit.{Log}
use scam.Service.{service_attrs, emit_service}
use scam.EndpointSlice.{endpoint_slice_attrs, emit_endpoint_slice}
use scam.Ingress.{ingress_attrs, emit_ingress, ingress_class_attrs, emit_ingress_class}
use scam.Refs.{ingress_backends}
use scam.Transform.{trim_service, trim_ingress, trim_endpoint_slice, trim_meta}

-- The records of Services, EndpointSlices, Ingresses and IngressClasses, and the backends of
-- Ingresses, are the same for the trimmed objects as for those that the server sent.
pub emit-trim :
    (event : Text) (s : Service) (es : EndpointSlice) (i : Ingress) (ic : IngressClass) (l : Log)
    → (emit_service event (trim_service s) l ≡ emit_service event s l)
      × (emit_endpoint_slice event (trim_endpoint_slice es) l ≡ emit_endpoint_slice event es l)
      × (emit_ingress event (trim_ingress i) l ≡ emit_ingress event i l)
      × (ingress_backends (trim_ingress i) ≡ ingress_backends i)
      × (emit_ingress_class event (trim_meta ic) l ≡ emit_ingress_class event ic l)
unfolding emit_service service_attrs emit_endpoint_slice endpoint_slice_attrs emit_ingress
    ingress_attrs ingress_backends emit_ingress_class ingress_class_attrs trim_service
    trim_endpoint_slice trim_ingress trim_meta
emit-trim event s es i ic l = (refl, refl, refl, refl, refl)

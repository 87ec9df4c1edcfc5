-- ===== src/Snapshot/Kinds.antt =====
-- What the snapshot of each kind logs.
use scam.Base.{
  Bool, ◌≡◌, refl, ◌∙◌, sym, ap, Option, none, some, List, [], ◌∷◌, ◌++◌, map, arith, Text, codes,
  text_ltb, length, text_beq, if◌then◌else◌,
}
use scam.Kube.{Meta, Pod, Service, EndpointSlice, Ingress, IngressClass, Unstructured}
use scam.Dynamic.{Nested, less_unstructured}
use scam.Emit.{Attrs, Log, Draft, stamped, plain, text, put, put_all}
use scam.Emit.Ids.{put_all-append}
use scam.Sort.{sort_slice}
use scam.Pod.{collect_containers}
use scam.Pod.Owner.{ReplicaSets, pod_owner, less_pod}
use scam.Pod.Changes.{draft}
use scam.Pod.Reports.{emit_pod-new}
use scam.Service.{service_attrs, emit_service}
use scam.EndpointSlice.{endpoint_slice_attrs, emit_endpoint_slice}
use scam.Ingress.{ingress_attrs, emit_ingress, ingress_class_attrs, emit_ingress_class}
use scam.Gateway.{
  Gvr, kind_from_resource, gateway_attrs, gateway_class_attrs, route_attrs, emit_gateway,
  emit_gateway_class, emit_route, emit_gateway_api,
}
use scam.Traefik.{traefik_kind_from_resource, traefik_attrs, emit_traefik}
use scam.Informer.{unstructured_list}
use scam.Snapshot.{
  Listed, listed, failed, DynamicSnapshot, uid_keys, dump_keys, pod_keys, meta_less, unless_nil,
  emit_container_snapshot, emit_service_snapshot, emit_endpoint_slice_snapshot,
  emit_ingress_snapshot, emit_ingress_class_snapshot, emit_gateway_api_snapshot,
  emit_traefik_snapshot,
}
use scam.Snapshot.Drafts.{section, dump_sorted-section}

-- A function that logs the drafts, whatever the log.
abbrev pub Logs : (Log → Log) → List Draft → Type 0
Logs f ds = (l : Log) → f l ≡ put_all ds l

pub Logs-then :
    (f g : Log → Log) (ds es : List Draft) → Logs f ds → Logs g es → Logs (λ l. g (f l)) (ds ++ es)
Logs-then f g ds es h k l = ap g (h l) ∙ (k (put_all ds l) ∙ sym (put_all-append ds es l))

-- Nothing for a nil informer, one line for an error of the lister, else the section of the objects.
abbrev pub described : {A : Type 0} → Text → (List A → List Draft) → Option (Listed A) → List Draft
described failing f none = []
described failing f (some (failed err)) = plain failing ((codes "err", text err) ∷ []) ∷ []
described failing f (some (listed xs)) = f xs

abbrev pub object_section :
    {A : Type 0}
    → Text
    → Text
    → (A → Meta)
    → (A → A → Bool)
    → (A → List Draft)
    → List A
    → List Draft
object_section id kind meta_of less f xs =
    let sorted = sort_slice less xs in
    section id kind f (λ _. 1) sorted (kind, uid_keys meta_of sorted)

abbrev pub pod_section : ReplicaSets → Text → List Pod → List Draft
pod_section sets id pods =
    let sorted = sort_slice (less_pod sets) pods in
    section id (codes "Pod")
      (λ p. map (draft (codes "INITIAL") p (pod_owner sets p)) (collect_containers p))
      (λ p. length (collect_containers p)) sorted (codes "Container", pod_keys sorted)

abbrev pub initial : Text → Attrs → List Draft
initial kind attrs = stamped (codes "INITIAL") kind attrs ∷ []

abbrev pub initial_service : Service → List Draft
initial_service s = initial (codes "Service") (service_attrs s)

abbrev pub initial_endpoint_slice : EndpointSlice → List Draft
initial_endpoint_slice s = initial (codes "EndpointSlice") (endpoint_slice_attrs s)

abbrev pub initial_ingress : Ingress → List Draft
initial_ingress i = initial (codes "Ingress") (ingress_attrs i)

abbrev pub initial_ingress_class : IngressClass → List Draft
initial_ingress_class i = initial (codes "IngressClass") (ingress_class_attrs i)

abbrev pub by_name : {A : Type 0} → (A → Meta) → A → A → Bool
by_name meta_of a b = meta_less (meta_of a) (meta_of b)

-- The record of a Gateway API object, by the resource; there is none for another resource.
abbrev pub gateway_draft : Nested → Gvr → Unstructured → List Draft
gateway_draft lib gvr u =
    if text_beq gvr.resource (codes "gateways")
    then initial (codes "Gateway") (gateway_attrs lib gvr u)
    else if text_beq gvr.resource (codes "gatewayclasses")
    then initial (codes "GatewayClass") (gateway_class_attrs lib gvr u)
    else if text_beq gvr.resource (codes "httproutes")
    then initial (codes "HTTPRoute") (route_attrs lib gvr u)
    else if text_beq gvr.resource (codes "grpcroutes")
    then initial (codes "GRPCRoute") (route_attrs lib gvr u)
    else if text_beq gvr.resource (codes "tlsroutes")
    then initial (codes "TLSRoute") (route_attrs lib gvr u)
    else if text_beq gvr.resource (codes "tcproutes")
    then initial (codes "TCPRoute") (route_attrs lib gvr u)
    else []

abbrev pub gateway_section : Nested → Text → DynamicSnapshot → List Draft
gateway_section lib id ds =
    object_section id (kind_from_resource ds.gvr.resource) (λ u. u.meta) less_unstructured
      (gateway_draft lib ds.gvr) (unstructured_list ds.objects)

abbrev pub traefik_draft : Nested → Gvr → Unstructured → List Draft
traefik_draft lib gvr u =
    initial (traefik_kind_from_resource gvr.resource) (traefik_attrs lib gvr u)

abbrev pub traefik_section : Nested → Text → DynamicSnapshot → List Draft
traefik_section lib id ds =
    let kind = traefik_kind_from_resource ds.gvr.resource in
    object_section id kind (λ u. u.meta) less_unstructured (traefik_draft lib ds.gvr)
      (unstructured_list ds.objects)

dump_keys-Logs :
    {A : Type 0} (meta_of : A → Meta) (kind : Text) (less : A → A → Bool) (one : A → Log → Log)
    (f : A → List Draft) (xs : List A) (id : Text)
    → ((x : A) → Logs (one x) (f x))
    → Logs (dump_keys meta_of kind less one xs id) (object_section id kind meta_of less f xs)
unfolding dump_keys
dump_keys-Logs meta_of kind less one f xs id h l =
    dump_sorted-section f (λ _. 1) (λ x k. (1, one x k)) (λ x k. ap (λ m. (1, m)) (h x k)) id kind
      kind less (uid_keys meta_of) xs l

pub pods-Logs :
    (sets : ReplicaSets) (x : Option (Listed Pod)) (id : Text)
    → Logs
        (unless_nil (emit_container_snapshot sets) x id)
        (described (codes "snapshot: list pods") (pod_section sets id) x)
unfolding emit_container_snapshot put_all put
pods-Logs sets none id l = refl
pods-Logs sets (some (failed err)) id l = refl
pods-Logs sets (some (listed pods)) id l =
    dump_sorted-section _ _ _ (λ p k. emit_pod-new sets (codes "INITIAL") p k) id (codes "Pod")
      (codes "Container") (less_pod sets) pod_keys pods l

pub services-Logs :
    (x : Option (Listed Service)) (id : Text)
    → Logs (unless_nil emit_service_snapshot x id) (
        described
          (codes "snapshot: list services")
          (object_section id
            (codes "Service")
            (λ s. s.meta)
            (by_name (λ s. s.meta))
            initial_service)
          x)
unfolding emit_service_snapshot emit_service put_all put
services-Logs none id l = refl
services-Logs (some (failed err)) id l = refl
services-Logs (some (listed xs)) id l = dump_keys-Logs _ _ _ _ initial_service xs id (λ x k. refl) l

pub endpoint_slices-Logs :
    (x : Option (Listed EndpointSlice)) (id : Text)
    → Logs (unless_nil emit_endpoint_slice_snapshot x id) (
        described
          (codes "snapshot: list endpointslices")
          (object_section id
            (codes "EndpointSlice")
            (λ s. s.meta)
            (by_name (λ s. s.meta))
            initial_endpoint_slice)
          x)
unfolding emit_endpoint_slice_snapshot emit_endpoint_slice put_all put
endpoint_slices-Logs none id l = refl
endpoint_slices-Logs (some (failed err)) id l = refl
endpoint_slices-Logs (some (listed xs)) id l =
    dump_keys-Logs _ _ _ _ initial_endpoint_slice xs id (λ x k. refl) l

pub ingresses-Logs :
    (x : Option (Listed Ingress)) (id : Text)
    → Logs (unless_nil emit_ingress_snapshot x id) (
        described
          (codes "snapshot: list ingresses")
          (object_section id
            (codes "Ingress")
            (λ i. i.meta)
            (by_name (λ i. i.meta))
            initial_ingress)
          x)
unfolding emit_ingress_snapshot emit_ingress put_all put
ingresses-Logs none id l = refl
ingresses-Logs (some (failed err)) id l = refl
ingresses-Logs (some (listed xs)) id l =
    dump_keys-Logs _ _ _ _ initial_ingress xs id (λ x k. refl) l

pub ingress_classes-Logs :
    (x : Option (Listed IngressClass)) (id : Text)
    → Logs (unless_nil emit_ingress_class_snapshot x id) (
        described
          (codes "snapshot: list ingressclasses")
          (object_section id
            (codes "IngressClass")
            (λ i. i.meta)
            (λ a b. text_ltb a.meta.name b.meta.name)
            initial_ingress_class)
          x)
unfolding emit_ingress_class_snapshot emit_ingress_class put_all put
ingress_classes-Logs none id l = refl
ingress_classes-Logs (some (failed err)) id l = refl
ingress_classes-Logs (some (listed xs)) id l =
    dump_keys-Logs _ _ _ _ initial_ingress_class xs id (λ x k. refl) l

gateway_api-Logs :
    (lib : Nested) (gvr : Gvr) (u : Unstructured)
    → Logs (emit_gateway_api lib (codes "INITIAL") gvr u) (gateway_draft lib gvr u)
unfolding emit_gateway_api emit_gateway emit_gateway_class emit_route put_all put
gateway_api-Logs lib gvr u l = ground arith

pub gateway-Logs :
    (lib : Nested) (ds : DynamicSnapshot) (id : Text)
    → Logs (emit_gateway_api_snapshot lib ds id) (gateway_section lib id ds)
unfolding emit_gateway_api_snapshot
gateway-Logs lib ds id l =
    dump_keys-Logs _ _ _ _ _ (unstructured_list ds.objects) id (gateway_api-Logs lib ds.gvr) l

pub traefik-Logs :
    (lib : Nested) (ds : DynamicSnapshot) (id : Text)
    → Logs (emit_traefik_snapshot lib ds id) (traefik_section lib id ds)
unfolding emit_traefik_snapshot emit_traefik put_all put
traefik-Logs lib ds id l =
    dump_keys-Logs _ _ _ _ (traefik_draft lib ds.gvr) (unstructured_list ds.objects) id
      (λ u k. refl) l

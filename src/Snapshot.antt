-- ===== src/Snapshot.antt =====
-- Full snapshots: internal/collector/snapshot.go, and EmitContainerSnapshot of
-- internal/collector/pod.go. `Snapshot.Id` models the identifier of a snapshot.
pub mod Drafts
pub mod Kinds
pub mod Envelope
pub mod Keys
pub mod Id
pub mod Loop
mod Tests
use scam.Base.{
  ℕ, Bool, Option, none, some, List, [], ◌∷◌, ◌++◌, map, Text, codes, text_ltb, if◌then◌else◌,
}
use scam.Kube.{Meta, Pod, Service, EndpointSlice, Ingress, IngressClass, Unstructured}
use scam.Dynamic.{Nested, ns_name_less, less_unstructured}
use scam.Emit.{Attrs, Log, text, texts, emit, report}
use scam.Pod.{ContainerRef, collect_containers, emit_pod}
use scam.Pod.Owner.{ReplicaSets, less_pod}
use scam.Service.{emit_service}
use scam.EndpointSlice.{emit_endpoint_slice}
use scam.Ingress.{emit_ingress, emit_ingress_class}
use scam.Gateway.{Gvr, kind_from_resource, emit_gateway_api}
use scam.Traefik.{traefik_kind_from_resource, emit_traefik}
use scam.Informer.{Any, unstructured_list, dump_sorted}

-- What an informer's lister returns: the objects, or an error.
pub data Listed (A : Type 0) : Type 0 where
  listed : List A → Listed A
  failed : Text → Listed A

pub record DynamicSnapshot : Type 0 where
  pub gvr : Gvr
  pub objects : List (Any Unstructured)

-- A field that is nil in the source has no value.
pub record SnapshotResources : Type 0 where
  pub pods : Option (Listed Pod)
  pub services : Option (Listed Service)
  pub endpoint_slices : Option (Listed EndpointSlice)
  pub ingresses : Option (Listed Ingress)
  pub ingress_classes : Option (Listed IngressClass)
  pub gateway_api : List DynamicSnapshot
  pub traefik : List DynamicSnapshot

abbrev with_gvr :
    Gvr → Option (List (Any Unstructured)) → List DynamicSnapshot → List DynamicSnapshot
with_gvr gvr none out = out
with_gvr gvr (some objs) out = record { gvr = gvr; objects = objs } ∷ out

-- `infs` is the map from the strings of the resources to the informers' caches.
unfoldable pub build_dynamic_snapshots :
    (gvr_string : Gvr → Text)
    → List Gvr
    → (infs : Text → Option (List (Any Unstructured))) → List DynamicSnapshot
build_dynamic_snapshots gvr_string [] infs = []
build_dynamic_snapshots gvr_string (g ∷ gs) infs =
    with_gvr g (infs (gvr_string g)) (build_dynamic_snapshots gvr_string gs infs)

unfoldable pub emit_snapshot_keys : Text → Text → List Text → Log → Log
emit_snapshot_keys id target_kind keys l =
    emit (codes "SNAPSHOT") (codes "Snapshot")
      ((codes "snapshot_id", text id)
        ∷ (codes "target_kind", text target_kind)
        ∷ (codes "resource_keys", texts keys)
        ∷ [])
      l

unfoldable pub uid_keys : {A : Type 0} → (A → Meta) → List A → List Text
uid_keys meta_of [] = []
uid_keys meta_of (x ∷ xs) = (meta_of x).uid ∷ uid_keys meta_of xs

-- The two lines that the snapshots of all kinds but the pods share; each object counts as one.
unfoldable pub dump_keys :
    {A : Type 0} → (A → Meta) → Text → (A → A → Bool) → (A → Log → Log) → List A → Text → Log → Log
dump_keys meta_of kind less one items id l =
    let (sorted, m) = dump_sorted kind less (λ x k. (1, one x k)) items l in
    emit_snapshot_keys id kind (uid_keys meta_of sorted) m

abbrev pub meta_less : Meta → Meta → Bool
meta_less a b = ns_name_less a.namespace a.name b.namespace b.name

unfoldable pub emit_service_snapshot : Listed Service → Text → Log → Log
emit_service_snapshot (failed err) id l =
    report (codes "snapshot: list services") ((codes "err", text err) ∷ []) l
emit_service_snapshot (listed list) id l =
    dump_keys (λ s. s.meta) (codes "Service") (λ a b. meta_less a.meta b.meta)
      (emit_service (codes "INITIAL")) list id l

unfoldable pub emit_endpoint_slice_snapshot : Listed EndpointSlice → Text → Log → Log
emit_endpoint_slice_snapshot (failed err) id l =
    report (codes "snapshot: list endpointslices") ((codes "err", text err) ∷ []) l
emit_endpoint_slice_snapshot (listed list) id l =
    dump_keys (λ s. s.meta) (codes "EndpointSlice") (λ a b. meta_less a.meta b.meta)
      (emit_endpoint_slice (codes "INITIAL")) list id l

unfoldable pub emit_ingress_snapshot : Listed Ingress → Text → Log → Log
emit_ingress_snapshot (failed err) id l =
    report (codes "snapshot: list ingresses") ((codes "err", text err) ∷ []) l
emit_ingress_snapshot (listed list) id l =
    dump_keys (λ i. i.meta) (codes "Ingress") (λ a b. meta_less a.meta b.meta)
      (emit_ingress (codes "INITIAL")) list id l

unfoldable pub emit_ingress_class_snapshot : Listed IngressClass → Text → Log → Log
emit_ingress_class_snapshot (failed err) id l =
    report (codes "snapshot: list ingressclasses") ((codes "err", text err) ∷ []) l
emit_ingress_class_snapshot (listed list) id l =
    dump_keys (λ i. i.meta) (codes "IngressClass") (λ a b. text_ltb a.meta.name b.meta.name)
      (emit_ingress_class (codes "INITIAL")) list id l

abbrev pub container_keys : Text → List ContainerRef → List Text
container_keys uid cs = map (λ c. uid ++ b'/' ∷ c.name) cs

-- The two loops over pods and containers that collect the keys.
unfoldable pub pod_keys : List Pod → List Text
pod_keys [] = []
pod_keys (p ∷ ps) = container_keys p.meta.uid (collect_containers p) ++ pod_keys ps

unfoldable pub emit_container_snapshot : ReplicaSets → Listed Pod → Text → Log → Log
emit_container_snapshot sets (failed err) id l =
    report (codes "snapshot: list pods") ((codes "err", text err) ∷ []) l
emit_container_snapshot sets (listed pods) id l =
    let (sorted, m) =
      dump_sorted (codes "Pod") (less_pod sets) (λ p k. emit_pod sets (codes "INITIAL") p none k)
        pods l in
    emit_snapshot_keys id (codes "Container") (pod_keys sorted) m

abbrev pub unless_nil :
    {A : Type 0} → (Listed A → Text → Log → Log) → Option (Listed A) → Text → Log → Log
unless_nil snapshot none id l = l
unless_nil snapshot (some x) id l = snapshot x id l

module _ (lib : Nested) where
  unfoldable pub emit_gateway_api_snapshot : DynamicSnapshot → Text → Log → Log
  emit_gateway_api_snapshot ds id l =
      dump_keys (λ u. u.meta) (kind_from_resource ds.gvr.resource) less_unstructured
        (emit_gateway_api lib (codes "INITIAL") ds.gvr) (unstructured_list ds.objects) id l

  unfoldable pub emit_traefik_snapshot : DynamicSnapshot → Text → Log → Log
  emit_traefik_snapshot ds id l =
      dump_keys (λ u. u.meta) (traefik_kind_from_resource ds.gvr.resource) less_unstructured
        (emit_traefik lib (codes "INITIAL") ds.gvr) (unstructured_list ds.objects) id l

  unfoldable pub each_dynamic :
      (DynamicSnapshot → Text → Log → Log) → List DynamicSnapshot → Text → Log → Log
  each_dynamic snapshot [] id l = l
  each_dynamic snapshot (d ∷ ds) id l = each_dynamic snapshot ds id (snapshot d id l)

  unfoldable pub emit_full_snapshot :
      ReplicaSets → SnapshotResources → (id snapshot_type : Text) → Log → Log
  emit_full_snapshot sets rs id snapshot_type l =
      let l1 =
        emit (codes "SNAPSHOT_BEGIN") (codes "Snapshot")
          ((codes "snapshot_id", text id) ∷ (codes "snapshot_type", text snapshot_type) ∷ []) l in
      let l2 = unless_nil (emit_container_snapshot sets) rs.pods id l1 in
      let l3 = unless_nil emit_service_snapshot rs.services id l2 in
      let l4 = unless_nil emit_endpoint_slice_snapshot rs.endpoint_slices id l3 in
      let l5 = unless_nil emit_ingress_snapshot rs.ingresses id l4 in
      let l6 = unless_nil emit_ingress_class_snapshot rs.ingress_classes id l5 in
      let l7 = each_dynamic emit_gateway_api_snapshot rs.gateway_api id l6 in
      let l8 = each_dynamic emit_traefik_snapshot rs.traefik id l7 in
      emit (codes "SNAPSHOT_END") (codes "Snapshot") ((codes "snapshot_id", text id) ∷ []) l8

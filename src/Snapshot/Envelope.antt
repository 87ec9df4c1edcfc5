-- ===== src/Snapshot/Envelope.antt =====
-- The records of a full snapshot, from SNAPSHOT_BEGIN to SNAPSHOT_END.
use scam.Base.{◌≡◌, refl, List, [], ◌∷◌, ◌++◌, Text, codes, text_ltb}
use scam.Dynamic.{Nested}
use scam.Emit.{Log, Draft, stamped, text, put, put_all}
use scam.Emit.Ids.{Extends, put_all-Extends}
use scam.Pod.Owner.{ReplicaSets}
use scam.Snapshot.{
  SnapshotResources, DynamicSnapshot, each_dynamic, emit_full_snapshot, unless_nil,
  emit_container_snapshot, emit_service_snapshot, emit_endpoint_slice_snapshot,
  emit_ingress_snapshot, emit_ingress_class_snapshot, emit_gateway_api_snapshot,
  emit_traefik_snapshot,
}
use scam.Snapshot.Drafts.{drafts_of}
use scam.Snapshot.Kinds.{
  Logs, Logs-then, described, object_section, pod_section, by_name, initial_service,
  initial_endpoint_slice, initial_ingress, initial_ingress_class, gateway_section, traefik_section,
  pods-Logs, services-Logs, endpoint_slices-Logs, ingresses-Logs, ingress_classes-Logs,
  gateway-Logs, traefik-Logs,
}

abbrev pub begin_record : Text → Text → Draft
begin_record id snapshot_type =
    stamped (codes "SNAPSHOT_BEGIN") (codes "Snapshot")
      ((codes "snapshot_id", text id) ∷ (codes "snapshot_type", text snapshot_type) ∷ [])

abbrev pub end_record : Text → Draft
end_record id =
    stamped (codes "SNAPSHOT_END") (codes "Snapshot") ((codes "snapshot_id", text id) ∷ [])

-- The sections of a snapshot: one for each kind, in a fixed order, before the rest.
abbrev pub sections : Nested → ReplicaSets → SnapshotResources → Text → List Draft → List Draft
sections lib sets rs id rest =
    described (codes "snapshot: list pods") (pod_section sets id) rs.pods
    ++ (described (codes "snapshot: list services")
          (object_section id (codes "Service") (λ s. s.meta) (by_name (λ s. s.meta))
            initial_service)
          rs.services
        ++ (described (codes "snapshot: list endpointslices")
              (object_section id (codes "EndpointSlice") (λ s. s.meta) (by_name (λ s. s.meta))
                initial_endpoint_slice)
              rs.endpoint_slices
            ++ (described (codes "snapshot: list ingresses")
                  (object_section id (codes "Ingress") (λ i. i.meta) (by_name (λ i. i.meta))
                    initial_ingress)
                  rs.ingresses
                ++ (described (codes "snapshot: list ingressclasses")
                      (object_section id (codes "IngressClass") (λ i. i.meta)
                        (λ a b. text_ltb a.meta.name b.meta.name) initial_ingress_class)
                      rs.ingress_classes
                    ++ (drafts_of (gateway_section lib id) rs.gateway_api
                        ++ (drafts_of (traefik_section lib id) rs.traefik ++ rest))))))

each_dynamic-Logs :
    (lib : Nested) (one : DynamicSnapshot → Text → Log → Log) (f : DynamicSnapshot → List Draft)
    (id : Text)
    → ((d : DynamicSnapshot) → Logs (one d id) (f d))
    → (ds : List DynamicSnapshot) → Logs (each_dynamic lib one ds id) (drafts_of f ds)
unfolding each_dynamic put_all
each_dynamic-Logs lib one f id h [] l = refl
each_dynamic-Logs lib one f id h (d ∷ ds) l =
    Logs-then (one d id) (each_dynamic lib one ds id) (f d) (drafts_of f ds) (h d)
      (each_dynamic-Logs lib one f id h ds) l

one : (d : Draft) (l : Log) → put d l ≡ put_all (d ∷ []) l
unfolding put_all
one d l = refl

envelope-Logs :
    (lib : Nested) (sets : ReplicaSets) (rs : SnapshotResources) (id : Text) (begin end' : Draft)
    → Logs
        (λ l.
          let l2 = unless_nil (emit_container_snapshot sets) rs.pods id (put begin l) in
          let l3 = unless_nil emit_service_snapshot rs.services id l2 in
          let l4 = unless_nil emit_endpoint_slice_snapshot rs.endpoint_slices id l3 in
          let l5 = unless_nil emit_ingress_snapshot rs.ingresses id l4 in
          let l6 = unless_nil emit_ingress_class_snapshot rs.ingress_classes id l5 in
          let l7 = each_dynamic lib (emit_gateway_api_snapshot lib) rs.gateway_api id l6 in
          put end' (each_dynamic lib (emit_traefik_snapshot lib) rs.traefik id l7))
        (begin ∷ sections lib sets rs id (end' ∷ []))
envelope-Logs lib sets rs id begin end' = Logs-then _ _ (begin ∷ []) _ (one begin) (
    Logs-then _ _ _ _ (pods-Logs sets rs.pods id) (
      Logs-then _ _ _ _ (services-Logs rs.services id) (
        Logs-then _ _ _ _ (endpoint_slices-Logs rs.endpoint_slices id) (
          Logs-then _ _ _ _ (ingresses-Logs rs.ingresses id) (
            Logs-then _ _ _ _ (ingress_classes-Logs rs.ingress_classes id) (
              Logs-then _ _ _ _
                (each_dynamic-Logs lib _ _ id (λ d. gateway-Logs lib d id) rs.gateway_api)
                (Logs-then _ _ _ _
                  (each_dynamic-Logs lib _ _ id (λ d. traefik-Logs lib d id) rs.traefik)
                  (one end'))))))))

-- A full snapshot logs SNAPSHOT_BEGIN, then the sections of the kinds in a fixed order, each with
-- the objects in their sorted order, their counts and their keys, then SNAPSHOT_END.
pub emit_full_snapshot-sections :
    (lib : Nested) (sets : ReplicaSets) (rs : SnapshotResources) (id snapshot_type : Text) (l : Log)
    → emit_full_snapshot lib sets rs id snapshot_type l
      ≡ put_all (begin_record id snapshot_type ∷ sections lib sets rs id (end_record id ∷ [])) l
unfolding emit_full_snapshot put
emit_full_snapshot-sections lib sets rs id snapshot_type l =
    envelope-Logs lib sets rs id (begin_record id snapshot_type) (end_record id) l

-- A full snapshot leaves what was logged in place, and its records take consecutive event ids.
pub emit_full_snapshot-Extends :
    (lib : Nested) (sets : ReplicaSets) (rs : SnapshotResources) (id snapshot_type : Text) (l : Log)
    → Extends l (emit_full_snapshot lib sets rs id snapshot_type l)
emit_full_snapshot-Extends lib sets rs id snapshot_type l =
    rw (emit_full_snapshot-sections lib sets rs id snapshot_type l) (put_all-Extends _ l)

-- ===== src/Snapshot/Tests.antt =====
-- A snapshot of two services, and the theorems at it.
use mathlib.Core.List.{Perm}
use scam.Base.{ℕ, ◌≡◌, refl, Bool, none, some, List, [], ◌∷◌, ◌++◌, map, length, codes}
use scam.Kube.{Pod, Service}
use scam.Dynamic.Sample.{sample}
use scam.Emit.{Draft, put_all}
use scam.Sort.{insert, sort_slice}
use scam.Samples.{service, pod, no_sets, empty_log}
use scam.Snapshot.{
  SnapshotResources, listed, meta_less, emit_full_snapshot, emit_container_snapshot,
}
use scam.Snapshot.Envelope.{begin_record, sections, end_record, emit_full_snapshot-sections}
use scam.Snapshot.Id.{be_bytes, hex, new_snapshot_id}
use scam.Snapshot.Drafts.{dump_record, keys_record}
use scam.Snapshot.Keys.{join_key, spec_keys, emit_container_snapshot-keys}

abbrev services : List Service
services = service (codes "web") ∷ service (codes "cart") ∷ []

abbrev resources : SnapshotResources
resources = record {
  pods = none;
  services = some (listed services);
  endpoint_slices = none;
  ingresses = none;
  ingress_classes = none;
  gateway_api = [];
  traefik = [];
}

abbrev less : Service → Service → Bool
less a b = meta_less a.meta b.meta

sort_test : sort_slice less services ≡ service (codes "cart") ∷ service (codes "web") ∷ []
unfolding sort_slice insert scam.Dynamic.ns_name_less
sort_test = refl

emit_full_snapshot-sections_example :
    emit_full_snapshot sample no_sets resources (codes "07") (codes "init") empty_log
    ≡ put_all
        (begin_record (codes "07") (codes "init")
          ∷ sections sample no_sets resources (codes "07") (end_record (codes "07") ∷ []))
        empty_log
emit_full_snapshot-sections_example =
    emit_full_snapshot-sections sample no_sets resources (codes "07") (codes "init") empty_log

abbrev pods : List Pod
pods = pod [] (codes "nginx") ∷ []

emit_container_snapshot-keys_example :
    (rs : List Draft) × (cached : ℕ) × (emit_container_snapshot no_sets
        (listed pods)
        (codes "07")
        empty_log
      ≡ put_all
          (rs
            ++ dump_record (codes "Pod") cached (length rs)
              ∷ keys_record (codes "07") (codes "Container") (map join_key rs)
              ∷ [])
          empty_log)
    × Perm (map join_key rs) (spec_keys pods)
emit_container_snapshot-keys_example =
    emit_container_snapshot-keys no_sets pods (codes "07") empty_log

abbrev random : List ℕ
random = 1 ∷ 2 ∷ 3 ∷ 4 ∷ 5 ∷ 6 ∷ 7 ∷ 255 ∷ []

id_test : new_snapshot_id 1700000000000 random ≡ codes "0000018bcfe5680001020304050607ff"
unfolding new_snapshot_id hex be_bytes
id_test = refl

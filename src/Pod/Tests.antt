-- ===== src/Pod/Tests.antt =====
-- Two versions of a pod, and the theorems at them.
use scam.Base.{◌≡◌, ◌≢◌, refl, some, [], ◌∷◌, arith, Text, codes, text_beq, text_beq_iff, false}
use scam.Kube.{Pod}
use scam.Samples.{pod, no_sets, empty_log}
use scam.Pod.{ContainerRef, collect_containers, refs_of, emit_pod}
use scam.Pod.Images.{status_image_id, same_pod_images, same_specs, same_image_ids, all_found}
use scam.Pod.Changes.{is_in, kept, HasDistinctKeys}
use scam.Pod.Same.{SameNames, same_pod_images_lem}
use scam.Pod.Reports.{reports, emit_pod-changes}

abbrev running : Pod
running = pod (codes "Running") []

abbrev pulled : Pod
pulled = pod (codes "Running") (codes "docker.io/nginx@sha256:aa")

-- Texts that the Boolean test tells apart.
differ : (s t : Text) → text_beq s t ≡ false → s ≢ t
differ s t h = ground (arith, text_beq_iff s t)

same_names : SameNames running pulled
same_names = record { init = refl; main = refl; ephemeral = refl }

running-HasDistinctKeys : HasDistinctKeys (collect_containers running)
unfolding collect_containers refs_of
running-HasDistinctKeys = ((differ (codes "main/web") (codes "init/setup") refl, tt), (tt, tt))

-- Only the main container has changed.
changes_test :
    kept (is_in (collect_containers running)) (collect_containers pulled)
    ≡ record {
      kind = codes "main";
      name = codes "web";
      spec = codes "nginx:1.2";
      id = codes "docker.io/nginx@sha256:aa";
    }
      ∷ []
unfolding collect_containers refs_of status_image_id is_in scam.Pod.Changes.ref_beq
changes_test = refl

emit_pod-changes_example :
    emit_pod no_sets (codes "UPDATE") pulled (some running) empty_log
    ≡ reports no_sets
        (codes "UPDATE")
        pulled
        (kept (is_in (collect_containers running)) (collect_containers pulled))
        empty_log
emit_pod-changes_example =
    emit_pod-changes no_sets (codes "UPDATE") pulled running empty_log refl running-HasDistinctKeys
      same_names

same_pod_images_lem_example :
    (running.status.phase ≡ running.status.phase)
    × (collect_containers running ≡ collect_containers running)
unfolding same_pod_images same_specs same_image_ids all_found status_image_id
same_pod_images_lem_example =
    same_pod_images_lem running running (record { init = refl; main = refl; ephemeral = refl }) refl

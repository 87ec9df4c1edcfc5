-- ===== src/Pod.antt =====
-- Pods and their containers: internal/collector/pod.go. `Pod.Owner` models PodOwner and lessPod,
-- `Pod.Images` SamePodImages; the records of a pod are here.
pub mod Owner
pub mod Images
pub mod Changes
pub mod Reports
pub mod Same
pub mod Order
mod Tests
use scam.Base.{
  ℕ, zero, suc, ◌+◌, Bool, true, false, not, ◌&&◌, Option, none, some, List, [], ◌∷◌, ◌++◌, Text,
  codes, if◌then◌else◌, text_eq, ◌==◌,
}
use scam.Kube.{Container, ContainerStatus, Pod}
use scam.Emit.{Attrs, Log, text, labels, emit}
use scam.Image.{split_image, split_image_name}
use Owner.{ReplicaSets, pod_owner}
use Images.{status_image_id, same_pod_images}

pub record ContainerRef : Type 0 where
  pub kind : Text
  pub name : Text
  pub spec : Text
  pub id : Text

unfoldable pub refs_of : Text → List ContainerStatus → List Container → List ContainerRef
refs_of kind statuses [] = []
refs_of kind statuses (c ∷ cs) =
    record { kind = kind; name = c.name; spec = c.image; id = status_image_id statuses c.name }
    ∷ refs_of kind statuses cs

unfoldable pub collect_containers : Pod → List ContainerRef
collect_containers p =
    refs_of (codes "init") p.status.init_container_statuses p.spec.init_containers
    ++ (refs_of (codes "main") p.status.container_statuses p.spec.containers
        ++ refs_of (codes "ephemeral") p.status.ephemeral_container_statuses
            p.spec.ephemeral_containers)

abbrev pub key : ContainerRef → Text
key c = c.kind ++ b'/' ∷ c.name

-- The map from keys to containers; the entry written last stands first, and wins.
abbrev pub Previous : Type 0
Previous = List (Text × ContainerRef)

unfoldable pub previous_from : Previous → List ContainerRef → Previous
previous_from m [] = m
previous_from m (c ∷ cs) = previous_from ((key c, c) ∷ m) cs

unfoldable pub lookup : Text → Previous → Option ContainerRef
lookup k [] = none
lookup k ((j, c) ∷ m) = if j == k then some c else lookup k m

-- The map of EmitPod, with no value where the source leaves it nil.
unfoldable pub previous : Pod → Option Pod → Option Previous
previous p none = none
previous p (some old) =
    if not (old.status.phase == p.status.phase)
    then none
    else some (previous_from [] (collect_containers old))

abbrev pub is_same : ContainerRef → Option ContainerRef → Bool
is_same c none = false
is_same c (some q) = q.spec == c.spec && q.id == c.id

unfoldable pub is_skipped : Option Previous → ContainerRef → Bool
is_skipped none c = false
is_skipped (some m) c = is_same c (lookup (key c) m)

unfoldable pub container_attrs : Pod → Text × Text → ContainerRef → Attrs
container_attrs p (owner_kind, owner) c =
    let s = split_image c.spec c.id in
    let (image, registry) = split_image_name s.repo in
    (codes "namespace", text p.meta.namespace)
    ∷ (codes "pod_uid", text p.meta.uid)
    ∷ (codes "pod_phase", text p.status.phase)
    ∷ (codes "owner_kind", text owner_kind)
    ∷ (codes "owner", text owner)
    ∷ (codes "pod", text p.meta.name)
    ∷ (codes "pod_labels", labels p.meta.labels)
    ∷ (codes "container_kind", text c.kind)
    ∷ (codes "container", text c.name)
    ∷ (codes "registry", text registry)
    ∷ (codes "image", text image)
    ∷ (codes "tag", text s.tag)
    ∷ (codes "digest", text s.digest)
    ∷ (codes "image_spec", text c.spec)
    ∷ (codes "image_id", text c.id)
    ∷ []

-- The loop of EmitPod: the count and the log.
unfoldable pub emit_containers :
    Text → Pod → Text × Text → Option Previous → ℕ → List ContainerRef → Log → ℕ × Log
emit_containers event p owner prev emitted [] l = (emitted, l)
emit_containers event p owner prev emitted (c ∷ cs) l =
    let logged =
      emit_containers event p owner prev (emitted + 1) cs
        (emit event (codes "Container") (container_attrs p owner c) l) in
    let skipped = emit_containers event p owner prev emitted cs l in
    if is_skipped prev c then skipped else logged

abbrev pub is_unchanged : Pod → Option Pod → Bool
is_unchanged p none = false
is_unchanged p (some old) = same_pod_images old p

unfoldable pub emit_pod : ReplicaSets → Text → Pod → Option Pod → Log → ℕ × Log
emit_pod rs event p old l =
    if is_unchanged p old
    then (0, l)
    else emit_containers event p (pod_owner rs p) (previous p old) 0 (collect_containers p) l

unfoldable pub delete_attrs : Pod → Text × Text → ContainerRef → Attrs
delete_attrs p (owner_kind, owner) c =
    (codes "namespace", text p.meta.namespace)
    ∷ (codes "pod_uid", text p.meta.uid)
    ∷ (codes "owner_kind", text owner_kind)
    ∷ (codes "owner", text owner)
    ∷ (codes "pod", text p.meta.name)
    ∷ (codes "container_kind", text c.kind)
    ∷ (codes "container", text c.name)
    ∷ []

unfoldable pub delete_containers : Pod → Text × Text → List ContainerRef → Log → Log
delete_containers p owner [] l = l
delete_containers p owner (c ∷ cs) l =
    delete_containers p owner cs
      (emit (codes "DELETE") (codes "Container") (delete_attrs p owner c) l)

unfoldable pub emit_pod_delete : ReplicaSets → Pod → Log → Log
emit_pod_delete rs p l = delete_containers p (pod_owner rs p) (collect_containers p) l

-- ===== src/Transform/Pods.antt =====
-- No record of a pod depends on what TrimPod and TrimReplicaSet strip.
use scam.Base.{
  ℕ, not, ◌+◌, ◌≡◌, refl, ap, ap₂, ◌&&◌, Option, none, some, List, [], ◌∷◌, ◌++◌, map, Text, codes,
  length-map, text_beq, if◌then◌else◌,
}
use scam.Kube.{Container, ContainerStatus, Pod, ReplicaSet}
use scam.Emit.{Log, emit}
use scam.Pod.{
  ContainerRef, refs_of, collect_containers, Previous, previous, previous_from, is_skipped,
  container_attrs, emit_containers, emit_pod, is_unchanged,
}
use scam.Pod.Owner.{ReplicaSets, pod_owner, owner_of_set, resolve_set, direct_owner}
use scam.Pod.Images.{status_image_id, same_specs, all_found, same_image_ids, same_pod_images}
use scam.Transform.{
  strip_container, clear_termination, trim_spec, trim_status, trim_pod, trim_replica_set,
}

abbrev clear_all : List ContainerStatus → List ContainerStatus
clear_all ss = map clear_termination ss

abbrev strip_all : List Container → List Container
strip_all cs = map strip_container cs

status_image_id-clear :
    (ss : List ContainerStatus) (name : Text)
    → status_image_id (clear_all ss) name ≡ status_image_id ss name
unfolding status_image_id clear_termination
status_image_id-clear [] name = refl
status_image_id-clear (s ∷ ss) name =
    ap (λ t. if text_beq s.name name then s.image_id else t) (status_image_id-clear ss name)

refs_of-trim :
    (kind : Text) (ss : List ContainerStatus) (cs : List Container)
    → refs_of kind (clear_all ss) (strip_all cs) ≡ refs_of kind ss cs
unfolding refs_of strip_container
refs_of-trim kind ss [] = refl
refs_of-trim kind ss (c ∷ cs) =
    ap₂ (λ id rest. record { kind = kind; name = c.name; spec = c.image; id = id } ∷ rest)
      (status_image_id-clear ss c.name) (refs_of-trim kind ss cs)

same_specs-strip :
    (cs ds : List Container) → same_specs (strip_all cs) (strip_all ds) ≡ same_specs cs ds
unfolding same_specs strip_container
same_specs-strip [] [] = refl
same_specs-strip [] (d ∷ ds) = refl
same_specs-strip (c ∷ cs) [] = refl
same_specs-strip (c ∷ cs) (d ∷ ds) =
    ap (λ b. text_beq c.name d.name && text_beq c.image d.image && b) (same_specs-strip cs ds)

all_found-clear :
    (ss ts : List ContainerStatus) → all_found (clear_all ss) (clear_all ts) ≡ all_found ss ts
unfolding all_found clear_termination
all_found-clear [] ts = refl
all_found-clear (s ∷ ss) ts =
    ap₂ (λ id b. text_beq s.image_id id && b) (status_image_id-clear ts s.name)
      (all_found-clear ss ts)

same_image_ids-clear :
    (ss ts : List ContainerStatus)
    → same_image_ids (clear_all ss) (clear_all ts) ≡ same_image_ids ss ts
unfolding same_image_ids
same_image_ids-clear ss ts =
    rw (length-map clear_termination ss, length-map clear_termination ts, all_found-clear ss ts)
      refl

same_pod_images-trim : (p q : Pod) → same_pod_images (trim_pod p) (trim_pod q) ≡ same_pod_images p q
unfolding same_pod_images trim_pod trim_spec trim_status
same_pod_images-trim p q =
    rw
      (
        length-map strip_container p.spec.init_containers,
        length-map strip_container q.spec.init_containers,
        length-map strip_container p.spec.containers,
        length-map strip_container q.spec.containers,
        length-map strip_container p.spec.ephemeral_containers,
        length-map strip_container q.spec.ephemeral_containers,
        same_specs-strip p.spec.init_containers q.spec.init_containers,
        same_specs-strip p.spec.containers q.spec.containers,
        same_specs-strip p.spec.ephemeral_containers q.spec.ephemeral_containers,
        same_image_ids-clear p.status.init_container_statuses q.status.init_container_statuses,
        same_image_ids-clear p.status.container_statuses q.status.container_statuses,
        same_image_ids-clear p.status.ephemeral_container_statuses
            q.status.ephemeral_container_statuses,
      )
      refl

collect_containers-trim : (p : Pod) → collect_containers (trim_pod p) ≡ collect_containers p
unfolding collect_containers trim_pod trim_spec trim_status
collect_containers-trim p =
    ap₂ ◌++◌ (refs_of-trim _ _ _) (ap₂ ◌++◌ (refs_of-trim _ _ _) (refs_of-trim _ _ _))

abbrev pub trim_found : Option ReplicaSet → Option ReplicaSet
trim_found none = none
trim_found (some rs) = some (trim_replica_set rs)

-- The lister of the ReplicaSets over the trimmed cache.
abbrev pub trim_sets : ReplicaSets → ReplicaSets
trim_sets none = none
trim_sets (some get) = some (λ namespace name. trim_found (get namespace name))

owner_of_set-trim :
    (found : Text × Text) (rs : Option ReplicaSet)
    → owner_of_set found (trim_found rs) ≡ owner_of_set found rs
unfolding trim_replica_set
owner_of_set-trim found none = refl
owner_of_set-trim found (some rs) = refl

resolve_set-trim :
    (sets : ReplicaSets) (namespace : Text) (found : Text × Text)
    → resolve_set (trim_sets sets) namespace found ≡ resolve_set sets namespace found
resolve_set-trim none namespace found = refl
resolve_set-trim (some get) namespace (kind, name) =
    ap (λ o. if text_beq kind (codes "ReplicaSet") then o else (kind, name))
      (owner_of_set-trim (kind, name) (get namespace name))

pod_owner-trim :
    (sets : ReplicaSets) (p : Pod) → pod_owner (trim_sets sets) (trim_pod p) ≡ pod_owner sets p
unfolding pod_owner trim_pod
pod_owner-trim sets p =
    resolve_set-trim sets p.meta.namespace (direct_owner p.meta.owner_references)

abbrev pub trim_old : Option Pod → Option Pod
trim_old none = none
trim_old (some old) = some (trim_pod old)

is_unchanged-trim :
    (p : Pod) (old : Option Pod) → is_unchanged (trim_pod p) (trim_old old) ≡ is_unchanged p old
is_unchanged-trim p none = refl
is_unchanged-trim p (some old) = same_pod_images-trim old p

previous-trim : (p : Pod) (old : Option Pod) → previous (trim_pod p) (trim_old old) ≡ previous p old
unfolding previous trim_pod trim_status
previous-trim p none = refl
previous-trim p (some old) =
    ap
      (λ cs.
        if not (text_beq old.status.phase p.status.phase) then none else some (previous_from [] cs))
      (collect_containers-trim old)

emit_containers-trim :
    (event : Text) (p : Pod) (owner : Text × Text) (prev : Option Previous) (n : ℕ)
    (cs : List ContainerRef) (l : Log)
    → emit_containers event (trim_pod p) owner prev n cs l
      ≡ emit_containers event p owner prev n cs l
unfolding emit_containers container_attrs trim_pod trim_status
emit_containers-trim event p owner prev n [] l = refl
emit_containers-trim event p owner prev n (c ∷ cs) l =
    ap₂ (λ a b. if is_skipped prev c then a else b) (emit_containers-trim event p owner prev n cs l)
      (emit_containers-trim event p owner prev (n + 1) cs
        (emit event (codes "Container") (container_attrs p owner c) l))

-- What EmitPod logs and counts is the same for the pods and ReplicaSets of the trimmed cache as for
-- those that the server sent, whatever the owner, the old version and the event.
pub emit_pod-trim :
    (sets : ReplicaSets) (event : Text) (p : Pod) (old : Option Pod) (l : Log)
    → emit_pod (trim_sets sets) event (trim_pod p) (trim_old old) l ≡ emit_pod sets event p old l
unfolding emit_pod
emit_pod-trim sets event p old l =
    rw
      (
        is_unchanged-trim p old,
        pod_owner-trim sets p,
        previous-trim p old,
        collect_containers-trim p,
        emit_containers-trim event p (pod_owner sets p) (previous p old) 0 (collect_containers p) l,
      )
      refl

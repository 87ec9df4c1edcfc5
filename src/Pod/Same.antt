-- ===== src/Pod/Same.antt =====
-- The early return of EmitPod: pods with the same images have the same containers to report.
use mathlib.Core.Bool.{and-eq-true_iff}
use mathlib.Core.Path.{ap₂}
use scam.Base.{
  ◌≡◌, ◌≢◌, refl, sym, ap, ◌∙◌, inl, inr, Bool, true, false, List, [], ◌∷◌, ◌++◌, map, arith, Text,
  All, length, text_beq, text_beq_iff, Bool-cases, codes,
}
use scam.Kube.{Container, ContainerStatus, Pod}
use scam.Pod.{refs_of, collect_containers}
use scam.Pod.Images.{status_image_id, same_specs, all_found, same_image_ids, same_pod_images}

abbrev pub status_names : List ContainerStatus → List Text
status_names ss = map (λ s. s.name) ss

abbrev IsAbsent : Text → List Text → Type 0
IsAbsent name ns = All (λ n. n ≢ name) ns

status_image_id-absent :
    (ss : List ContainerStatus) (name : Text)
    → IsAbsent name (status_names ss)
    → status_image_id ss name ≡ []
unfolding status_image_id
status_image_id-absent [] name h = refl
status_image_id-absent (s ∷ ss) name (ne, h) =
    ground (arith, text_beq_iff s.name name, status_image_id-absent ss name h)

-- Where every old status is found among the new ones, a lookup gives the same in both.
found_same :
    (ss new : List ContainerStatus) (name : Text)
    → all_found ss new ≡ true
    → (IsAbsent name (status_names ss) → status_image_id new name ≡ [])
    → status_image_id ss name ≡ status_image_id new name
unfolding status_image_id all_found
found_same [] new name h k = sym (k tt)
found_same (s ∷ ss) new name h k = elim (Bool-cases (text_beq s.name name)) [
  | inl e ↦
      let same : s.name ≡ name = (text_beq_iff s.name name).0 e in
      rw e ((text_beq_iff _ _).0 ((and-eq-true_iff _ _).0 h).0 ∙ ap (status_image_id new) same)
  | inr e ↦
      let other : s.name ≢ name = λ q. differ e ((text_beq_iff s.name name).1 q) in
      rw e (found_same ss new name ((and-eq-true_iff _ _).0 h).1 (λ m. k (other, m)))
]
  where
    differ : {b : Bool} → b ≡ false → b ≡ true → ⊥
    differ p q = cc

same_image_ids-lookup :
    (old new : List ContainerStatus) (name : Text)
    → status_names old ≡ status_names new
    → same_image_ids old new ≡ true
    → status_image_id old name ≡ status_image_id new name
unfolding same_image_ids
same_image_ids-lookup old new name e h =
    found_same old new name (ground arith) (λ m. status_image_id-absent new name (rw e at m))

refs_of-same :
    (kind : Text) (olds news : List ContainerStatus) (as' bs : List Container)
    → ((name : Text) → status_image_id olds name ≡ status_image_id news name)
    → length as' ≡ length bs
    → same_specs as' bs ≡ true
    → refs_of kind olds as' ≡ refs_of kind news bs
unfolding refs_of same_specs
refs_of-same kind olds news [] [] f n h = refl
refs_of-same kind olds news [] (b ∷ bs) f n h = absurd (omega arith)
refs_of-same kind olds news (a ∷ as') [] f n h = absurd (omega arith)
refs_of-same kind olds news (a ∷ as') (b ∷ bs) f n h = ground (
  arith,
  text_beq_iff a.name b.name,
  text_beq_iff a.image b.image,
  f a.name,
  refs_of-same kind olds news as' bs f,
)

-- The kubelet reports the statuses of the same containers, in the same order, in both versions.
pub record SameNames (old p : Pod) : Type 0 where
  pub init :
      status_names old.status.init_container_statuses
      ≡ status_names p.status.init_container_statuses
  pub main : status_names old.status.container_statuses ≡ status_names p.status.container_statuses
  pub ephemeral :
      status_names old.status.ephemeral_container_statuses
      ≡ status_names p.status.ephemeral_container_statuses

-- What SamePodImages has compared when it returns true.
record Agrees (old p : Pod) : Type 0 where
  phase : old.status.phase ≡ p.status.phase
  init_length : length old.spec.init_containers ≡ length p.spec.init_containers
  main_length : length old.spec.containers ≡ length p.spec.containers
  ephemeral_length : length old.spec.ephemeral_containers ≡ length p.spec.ephemeral_containers
  init_specs : same_specs old.spec.init_containers p.spec.init_containers ≡ true
  main_specs : same_specs old.spec.containers p.spec.containers ≡ true
  ephemeral_specs : same_specs old.spec.ephemeral_containers p.spec.ephemeral_containers ≡ true
  init_ids :
      same_image_ids old.status.init_container_statuses p.status.init_container_statuses ≡ true
  main_ids : same_image_ids old.status.container_statuses p.status.container_statuses ≡ true
  ephemeral_ids :
      same_image_ids old.status.ephemeral_container_statuses p.status.ephemeral_container_statuses
      ≡ true

same_pod_images-Agrees : (old p : Pod) → same_pod_images old p ≡ true → Agrees old p
unfolding same_pod_images
same_pod_images-Agrees old p h = ground (arith, text_beq_iff old.status.phase p.status.phase)

-- Two versions of a pod that SamePodImages takes for the same, and that report statuses of the same
-- containers, are in one phase and have the same containers, with their images and image ids.
pub same_pod_images_lem :
    (old p : Pod)
    → SameNames old p
    → same_pod_images old p ≡ true
    → (old.status.phase ≡ p.status.phase) × (collect_containers old ≡ collect_containers p)
unfolding collect_containers
same_pod_images_lem old p s h =
    let g = same_pod_images-Agrees old p h in
    let init =
      refs_of-same (codes "init") _ _ _ _ (λ n. same_image_ids-lookup _ _ n s.init g.init_ids)
        g.init_length g.init_specs in
    let main =
      refs_of-same (codes "main") _ _ _ _ (λ n. same_image_ids-lookup _ _ n s.main g.main_ids)
        g.main_length g.main_specs in
    let ephemeral =
      refs_of-same (codes "ephemeral") _ _ _ _
        (λ n. same_image_ids-lookup _ _ n s.ephemeral g.ephemeral_ids) g.ephemeral_length
        g.ephemeral_specs in
    (g.phase, ap₂ ◌++◌ init (ap₂ ◌++◌ main ephemeral))

-- ===== src/Pod/Reports.antt =====
-- EmitPod against its specification: it reports what is new, and counts it.
use mathlib.Core.Path.{subst}
use scam.Base.{
  ◌++◌, append_assoc, ℕ, ◌+◌, ◌≡◌, ◌≢◌, refl, sym, ap, ◌∙◌, inl, inr, true, false, Option, none,
  some, List, [], ◌∷◌, map, arith, Text, All, length, text_beq, text_beq_iff, Bool-cases,
}
use scam.Kube.{Pod}
use scam.Emit.{Log, put_all}
use scam.Pod.{
  ContainerRef, Previous, collect_containers, key, lookup, previous, is_skipped, emit_containers,
  emit_pod,
}
use scam.Pod.Owner.{ReplicaSets, pod_owner}
use scam.Pod.Images.{same_pod_images}
use scam.Pod.Same.{SameNames, same_pod_images_lem}
use scam.Pod.Changes.{
  draft, kept, emit_containers-kept, is_in, HasDistinctKeys, skip-is_in, collect_containers-HasKind,
  kept-congruent, kept_none, kept_self, ref_beq_iff,
}

-- The count and the log when these containers are reported.
abbrev pub reports : ReplicaSets → Text → Pod → List ContainerRef → Log → ℕ × Log
reports rs event p cs l = (length cs, put_all (map (draft event p (pod_owner rs p)) cs) l)

-- The containers that a map leaves to be reported.
reported :
    (rs : ReplicaSets) (event : Text) (p : Pod) (prev : Option Previous)
    (cs new : List ContainerRef) (l : Log)
    → kept (is_skipped prev) cs ≡ new
    → emit_containers event p (pod_owner rs p) prev 0 cs l ≡ reports rs event p new l
reported rs event p prev cs new l e =
    emit_containers-kept event p (pod_owner rs p) prev 0 cs l
    ∙ ap (λ ds. (0 + length ds, put_all (map (draft event p (pod_owner rs p)) ds) l)) e
    ∙ ap (λ k. (k, put_all (map (draft event p (pod_owner rs p)) new) l)) (omega arith)

none_skipped : (cs : List ContainerRef) → kept (is_skipped none) cs ≡ cs
unfolding is_skipped
none_skipped cs = kept_none cs

-- A pod with no old version is reported with all of its containers.
pub emit_pod-new :
    (rs : ReplicaSets) (event : Text) (p : Pod) (l : Log)
    → emit_pod rs event p none l ≡ reports rs event p (collect_containers p) l
unfolding emit_pod previous
emit_pod-new rs event p l = reported rs event p none (collect_containers p) _ l (none_skipped _)

phase_differs :
    (old p : Pod)
    → old.status.phase ≢ p.status.phase
    → (text_beq old.status.phase p.status.phase ≡ false) × (same_pod_images old p ≡ false)
unfolding same_pod_images
phase_differs old p h = ground (arith, text_beq_iff old.status.phase p.status.phase)

-- A pod that is new, or whose phase has changed, is reported with all of its containers, in order.
pub emit_pod-all :
    (rs : ReplicaSets) (event : Text) (p old : Pod) (l : Log)
    → old.status.phase ≢ p.status.phase
    → (emit_pod rs event p none l ≡ reports rs event p (collect_containers p) l)
      × (emit_pod rs event p (some old) l ≡ reports rs event p (collect_containers p) l)
unfolding emit_pod previous
emit_pod-all rs event p old l h =
    let all = reported rs event p none (collect_containers p) _ l (none_skipped _) in
    let (other, changed) = phase_differs old p h in (all, rw (changed, other) all)

is_in-middle :
    (before : List ContainerRef) (c : ContainerRef) (cs : List ContainerRef)
    → is_in (before ++ c ∷ cs) c ≡ true
unfolding is_in
is_in-middle [] c cs = rw ((ref_beq_iff c c).1 refl)
is_in-middle (b ∷ before) c cs = ground (arith, is_in-middle before c cs)

is_in_self : (before cs : List ContainerRef) → All (λ c. is_in (before ++ cs) c ≡ true) cs
is_in_self before [] = tt
is_in_self before (c ∷ cs) = (
  is_in-middle before c cs,
  subst (λ ds. All (λ d. is_in ds d ≡ true) cs) (append_assoc before (c ∷ []) cs)
      (is_in_self (before ++ c ∷ []) cs),
)

lookup_nil : (c : ContainerRef) → lookup (key c) [] ≡ none
unfolding lookup
lookup_nil c = refl

same_reported :
    (rs : ReplicaSets) (event : Text) (p old : Pod) (l : Log)
    → SameNames old p
    → same_pod_images old p ≡ true
    → reports rs event p (kept (is_in (collect_containers old)) (collect_containers p)) l ≡ (0, l)
unfolding put_all
same_reported rs event p old l s e =
    let (_, same) = same_pod_images_lem old p s e in
    rw (same, kept_self (collect_containers p) _ (is_in_self [] (collect_containers p)))

-- The map of the old version skips what the old version has.
kept-previous :
    (p old : Pod)
    → old.status.phase ≡ p.status.phase
    → HasDistinctKeys (collect_containers old)
    → kept (is_skipped (previous p (some old))) (collect_containers p)
      ≡ kept (is_in (collect_containers old)) (collect_containers p)
unfolding previous is_skipped
kept-previous p old h d = rw ((text_beq_iff old.status.phase p.status.phase).1 h) (
    kept-congruent _ _ _ (collect_containers-HasKind p) (λ c k.
      skip-is_in [] (collect_containers old) c (lookup_nil c) d (collect_containers-HasKind old) k))

-- For a pod in the same phase, whose old version has no two containers of one kind and name, and
-- whose statuses name the same containers as before: EmitPod reports, in order, the containers that
-- the old version does not have with the same image and image id, and returns their number.
pub emit_pod-changes :
    (rs : ReplicaSets) (event : Text) (p old : Pod) (l : Log)
    → old.status.phase ≡ p.status.phase
    → HasDistinctKeys (collect_containers old)
    → SameNames old p
    → emit_pod rs event p (some old) l
      ≡ reports rs event p (kept (is_in (collect_containers old)) (collect_containers p)) l
unfolding emit_pod
emit_pod-changes rs event p old l h d s = elim (Bool-cases (same_pod_images old p)) [
  | inl e ↦ rw e (sym (same_reported rs event p old l s e))
  | inr e ↦ rw e (reported rs event p (previous p (some old)) _ _ l (kept-previous p old h d))
]

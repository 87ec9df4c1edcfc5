-- ===== src/Pod/Changes.antt =====
-- Which containers EmitPod reports.
use mathlib.Core.Path.{subst}
use scam.Base.{
  ℕ, ◌+◌, ◌≡◌, ◌≢◌, refl, sym, ap, ◌∙◌, inl, inr, Bool, true, false, ◌&&◌, Option, none, some, List,
  [], ◌∷◌, map, arith, Text, All, Free, length, text_beq, text_beq_iff, Bool-cases, if◌then◌else◌,
  codes, ◌==◌, text_eq, All-append, ◌↔◌,
}
use scam.Kube.{Container, ContainerStatus, Pod}
use scam.Emit.{Log, Draft, stamped, put, put_all}
use scam.Image.{cut_first}
use scam.Image.Cuts.{cut_first-append}
use scam.Pod.{
  ContainerRef, refs_of, collect_containers, key, Previous, previous_from, lookup, is_same,
  is_skipped, container_attrs, emit_containers,
}

-- The record of a container.
abbrev pub draft : Text → Pod → Text × Text → ContainerRef → Draft
draft event p owner c = stamped event (codes "Container") (container_attrs p owner c)

-- The containers that a test does not skip.
abbrev pub kept : (ContainerRef → Bool) → List ContainerRef → List ContainerRef
kept skip [] = []
kept skip (c ∷ cs) = if skip c then kept skip cs else c ∷ kept skip cs

pub emit_containers-kept :
    (event : Text) (p : Pod) (owner : Text × Text) (prev : Option Previous) (n : ℕ)
    (cs : List ContainerRef) (l : Log)
    → let new = kept (is_skipped prev) cs in
      emit_containers event p owner prev n cs l
      ≡ (n + length new, put_all (map (draft event p owner) new) l)
unfolding emit_containers put_all put
emit_containers-kept event p owner prev n [] l = ap (λ k. (k, l)) (omega arith)
emit_containers-kept event p owner prev n (c ∷ cs) l = elim (Bool-cases (is_skipped prev c)) [
  | inl e ↦ rw e (emit_containers-kept event p owner prev n cs l)
  | inr e ↦ rw e (
      emit_containers-kept event p owner prev (n + 1) cs (put (draft event p owner c) l)
      ∙ ap (λ k. (k, rest)) (omega arith))
]
  where
    rest : Log
    rest =
        put_all (map (draft event p owner) (kept (is_skipped prev) cs))
          (put (draft event p owner c) l)

unfoldable pub ref_beq : ContainerRef → ContainerRef → Bool
ref_beq a b = a.kind == b.kind && a.name == b.name && a.spec == b.spec && a.id == b.id

pub ref_beq_iff : (a b : ContainerRef) → (ref_beq a b ≡ true) ↔ (a ≡ b)
unfolding ref_beq
ref_beq_iff a b = ground (
  arith,
  text_beq_iff a.kind b.kind,
  text_beq_iff a.name b.name,
  text_beq_iff a.spec b.spec,
  text_beq_iff a.id b.id,
)

-- Whether a container, with its image and image id, is in the list.
unfoldable pub is_in : List ContainerRef → ContainerRef → Bool
is_in [] c = false
is_in (q ∷ qs) c = if ref_beq q c then true else is_in qs c

-- No two containers of the pod have one key.
abbrev pub HasDistinctKeys : List ContainerRef → Type 0
HasDistinctKeys [] = Unit
HasDistinctKeys (c ∷ cs) = All (λ d. key d ≢ key c) cs × HasDistinctKeys cs

lookup-absent :
    (m : Previous) (cs : List ContainerRef) (k : Text)
    → All (λ d. key d ≢ k) cs
    → lookup k (previous_from m cs) ≡ lookup k m
unfolding previous_from lookup
lookup-absent m [] k h = refl
lookup-absent m (c ∷ cs) k (ne, h) =
    lookup-absent ((key c, c) ∷ m) cs k h ∙ ground (arith, text_beq_iff (key c) k)

abbrev pub HasKind : ContainerRef → Type 0
HasKind c = Free b'/' c.kind

key_injective :
    (c d : ContainerRef)
    → HasKind c
    → HasKind d
    → key c ≡ key d
    → (c.kind ≡ d.kind) × (c.name ≡ d.name)
key_injective c d hc hd e =
    let cut : ◌≡◌ {A = Option (Text × Text)} (some (c.kind, c.name)) (some (d.kind, d.name)) =
      sym (cut_first-append b'/' c.kind c.name hc)
      ∙ ap (cut_first b'/') e
      ∙ cut_first-append b'/' d.kind d.name hd in
    (cc, cc)

is_in-absent :
    (qs : List ContainerRef) (c : ContainerRef) → All (λ d. key d ≢ key c) qs → is_in qs c ≡ false
unfolding is_in
is_in-absent [] c h = refl
is_in-absent (q ∷ qs) c (ne, h) = elim (Bool-cases (ref_beq q c)) [
  | inl e ↦ absurd (ne (ap key ((ref_beq_iff q c).0 e)))
  | inr e ↦ rw e (is_in-absent qs c h)
]

-- With its key found, a container is the same when its image and image id are.
found_key :
    (q c : ContainerRef) → HasKind q → HasKind c → key q ≡ key c → is_same c (some q) ≡ ref_beq q c
unfolding ref_beq
found_key q c hq hc e =
    let (kind, name) = key_injective q c hq hc e in
    ground (arith, text_beq_iff q.kind c.kind, text_beq_iff q.name c.name)

beq_apart : {b : Bool} → b ≡ false → b ≡ true → ⊥
beq_apart p q = cc

or_false : (b r : Bool) → r ≡ false → (if b then true else r) ≡ b
or_false true r e = refl
or_false false r e = e

differs : (b r : Bool) → b ≡ false → (if b then true else r) ≡ r
differs b r e = rw e refl

first_hit :
    (q c : ContainerRef) (m : Previous)
    → text_beq (key q) (key c) ≡ true
    → lookup (key c) ((key q, q) ∷ m) ≡ some q
unfolding lookup
first_hit q c m e = rw e

first_miss :
    (q c : ContainerRef) (m : Previous)
    → text_beq (key q) (key c) ≡ false
    → lookup (key c) ((key q, q) ∷ m) ≡ lookup (key c) m
unfolding lookup
first_miss q c m e = rw e

other_ref : (q c : ContainerRef) → text_beq (key q) (key c) ≡ false → ref_beq q c ≡ false
other_ref q c e = elim (Bool-cases (ref_beq q c)) [
  | inl same ↦ absurd (beq_apart e ((text_beq_iff _ _).1 (ap key ((ref_beq_iff q c).0 same))))
  | inr differ ↦ differ
]

-- The map of the old containers finds a container unchanged exactly when it was there before.
pub skip-is_in :
    (m : Previous) (qs : List ContainerRef) (c : ContainerRef)
    → lookup (key c) m ≡ none
    → HasDistinctKeys qs
    → All HasKind qs
    → HasKind c
    → is_same c (lookup (key c) (previous_from m qs)) ≡ is_in qs c
unfolding previous_from is_in
skip-is_in m [] c e d k h = rw e
skip-is_in m (q ∷ qs) c e (fresh, d) (kq, k) h = elim (Bool-cases (text_beq (key q) (key c))) [
  | inl same ↦
      let eq = (text_beq_iff (key q) (key c)).0 same in
      let others : All (λ d. key d ≢ key c) qs = subst (λ t. All (λ d. key d ≢ t) qs) eq fresh in
      ap (is_same c) (lookup-absent _ qs (key c) others ∙ first_hit q c m same)
      ∙ found_key q c kq h eq
      ∙ sym (or_false (ref_beq q c) _ (is_in-absent qs c others))
  | inr other ↦
      skip-is_in ((key q, q) ∷ m) qs c (first_miss q c m other ∙ e) d k h
      ∙ sym (differs (ref_beq q c) _ (other_ref q c other))
]

refs_of-HasKind :
    (kind : Text) (ss : List ContainerStatus) (cs : List Container)
    → Free b'/' kind
    → All HasKind (refs_of kind ss cs)
unfolding refs_of
refs_of-HasKind kind ss [] h = tt
refs_of-HasKind kind ss (c ∷ cs) h = (h, refs_of-HasKind kind ss cs h)

pub collect_containers-HasKind : (p : Pod) → All HasKind (collect_containers p)
unfolding collect_containers
collect_containers-HasKind p =
    All-append HasKind _ _ (refs_of-HasKind (codes "init") _ _ (omega arith)) (
      All-append HasKind _ _ (refs_of-HasKind (codes "main") _ _ (omega arith))
        (refs_of-HasKind (codes "ephemeral") _ _ (omega arith)))

pub kept-congruent :
    (f g : ContainerRef → Bool) (cs : List ContainerRef)
    → All HasKind cs
    → ((c : ContainerRef) → HasKind c → f c ≡ g c)
    → kept f cs ≡ kept g cs
kept-congruent f g [] h e = refl
kept-congruent f g (c ∷ cs) (hc, h) e = rw (e c hc, kept-congruent f g cs h e)

pub kept_none : (cs : List ContainerRef) → kept (λ c. false) cs ≡ cs
kept_none [] = refl
kept_none (c ∷ cs) = ap (◌∷◌ c) (kept_none cs)

-- A list keeps nothing that is in itself.
pub kept_self :
    (qs cs : List ContainerRef) → All (λ c. is_in qs c ≡ true) cs → kept (is_in qs) cs ≡ []
kept_self qs [] h = refl
kept_self qs (c ∷ cs) (e, h) = rw (e, kept_self qs cs h)

-- ===== src/Image/Names.antt =====
-- SplitImageName takes the registry off an image's name.
use scam.Base.{
  ◌≡◌, refl, nat_beq, subst, not, ◌&&◌, if◌then◌else◌, sym, ◌∙◌, ◌≢◌, ◌⊎◌, ◌↔◌, inl, inr, true,
  false, none, some, [], ◌∷◌, ◌++◌, arith, Text, ℕ, Free, In, text_beq_iff, Option-cases,
  Bool-cases, trim_prefix, after_prefix, contains_byte, codes, ◌==◌, text_eq,
}
use scam.Image.{cut_first, split_registry, split_image_name, is_registry}
use scam.Image.Cuts.{cut_first_lem}

-- A dot or a colon, or the name localhost.
abbrev pub LooksLikeHost : Text → Type 0
LooksLikeHost first = In b'.' first ⊎ In b':' first ⊎ (first ≡ codes "localhost")

contains_byte_iff : (c : ℕ) (s : Text) → (contains_byte c s ≡ true) ↔ In c s
contains_byte_iff c [] = ground arith
contains_byte_iff c (b ∷ s) = ground (arith, contains_byte_iff c s)

is_registry_iff : (first : Text) → (is_registry first ≡ true) ↔ LooksLikeHost first
is_registry_iff first = ground (
  arith,
  contains_byte_iff b'.' first,
  contains_byte_iff b':' first,
  text_beq_iff first (codes "localhost"),
)

cc_false : true ≡ false → ⊥
cc_false e = cc

-- No host stands before the first slash: there is no slash, or nothing before it, or something else.
abbrev pub HasNoHost : Text → Type 0
HasNoHost full =
    Free b'/' full
    ⊎ ((first : Text) × (rest : Text) × (full ≡ first ++ b'/' ∷ rest)
        × Free b'/' first
        × ((first ≡ []) ⊎ ¬ (LooksLikeHost first)))

-- The registry and what stands behind its slash.
abbrev pub HasHost : Text → Text → Text → Type 0
HasHost full registry rest =
    (registry ≢ []) × LooksLikeHost registry × Free b'/' registry × (full ≡ registry ++ b'/' ∷ rest)

abbrev Cuts : Text → Text × Text → Type 0
Cuts full (rest, registry) =
    (HasNoHost full × (registry ≡ []) × (rest ≡ full)) ⊎ HasHost full registry rest

split_registry-Cuts : (full : Text) → Cuts full (split_registry full)
unfolding split_registry
split_registry-Cuts full = elim (Option-cases (cut_first b'/' full)) [
  | inl e ↦ rw (e, split_registry) (inl (inl (rw e at (cut_first_lem b'/' full)), refl, refl))
  | inr ((first, rest), e) ↦
      let (whole, free) = (rw e at (cut_first_lem b'/' full)) in
      rw (e, split_registry) (host first rest whole free)
]
  where
    host :
        (first rest : Text)
        → full ≡ first ++ b'/' ∷ rest
        → Free b'/' first
        → Cuts full (if not (first == []) && is_registry first then (rest, first) else (full, []))
    host first rest whole free = elim (Bool-cases (first == [])) [
      | inl a ↦
          simp a
            (inl (inr (first, rest, whole, free, inl ((text_beq_iff first []).0 a)), refl, refl))
      | inr a ↦ elim (Bool-cases (is_registry first)) [
        | inl b ↦
            simp (a, b)
              (inr (
                (λ k. cc_false (sym ((text_beq_iff first []).1 k) ∙ a)),
                (is_registry_iff first).0 b,
                free,
                whole,
              ))
        | inr b ↦
            simp (a, b)
              (inl (
                inr (
                  first,
                  rest,
                  whole,
                  free,
                  inr (λ h. cc_false (sym ((is_registry_iff first).1 h) ∙ b)),
                ),
                refl,
                refl,
              ))
      ]
    ]

-- Does the text begin with the prefix?
abbrev pub Begins : Text → Text → Type 0
Begins p s = (r : Text) × (s ≡ p ++ r)

after_prefix_lem :
    (p s : Text)
    → ((r : Text) × (after_prefix p s ≡ some r) × (s ≡ p ++ r))
      ⊎ ((after_prefix p s ≡ none) × ¬ (Begins p s))
after_prefix_lem [] s = inl (s, refl, refl)
after_prefix_lem (a ∷ p) [] = inr (refl, λ h. cc)
after_prefix_lem (a ∷ p) (b ∷ s) = elim (Bool-cases (nat_beq a b)) [
  | inl e ↦
      let same : a ≡ b = ground arith in
      elim (after_prefix_lem p s) [
        | inl (r, found, w) ↦ simp e (inl (r, found, cc))
        | inr (missing, begins) ↦ simp e (inr (missing, λ h. begins (h.0, ground arith)))
      ]
  | inr e ↦ simp e (inr (refl, λ h. ground arith))
]

-- What SplitImageName returns for a name, in terms of the name.
abbrev pub IsSplit : Text → Text × Text → Type 0
IsSplit full (image, registry) =
    (HasNoHost full × (registry ≡ []) × (image ≡ full))
    ⊎ ((registry ≢ codes "docker.io") × HasHost full registry image)
    ⊎ ((registry ≡ codes "docker.io")
        × (HasHost full registry (codes "library/" ++ image)
            ⊎ (HasHost full registry image × ¬ (Begins (codes "library/") image))))

-- The official images lose their directory.
trimmed-IsSplit :
    (full image registry : Text)
    → Cuts full (image, registry)
    → registry ≡ codes "docker.io"
    → IsSplit full (trim_prefix (codes "library/") image, registry)
trimmed-IsSplit full image registry (inl (_, e, _)) h = absurd (docker (sym e ∙ h))
  where
    docker : [] ≡ codes "docker.io" → ⊥
    docker k = cc
trimmed-IsSplit full image registry (inr host) h = inr (
    inr (
      h,
      elim (after_prefix_lem (codes "library/") image) [
        | inl (r, e, w) ↦ rw (e, trim_prefix) (inl (subst (HasHost full registry) w host))
        | inr (e, begins) ↦ rw (e, trim_prefix) (inr (host, begins))
      ],
    ))

kept-IsSplit :
    (full image registry : Text)
    → Cuts full (image, registry)
    → registry ≢ codes "docker.io"
    → IsSplit full (image, registry)
kept-IsSplit full image registry (inl c) h = inl c
kept-IsSplit full image registry (inr host) h = inr (inl (h, host))

-- The registry is the part before the first slash, exactly where that part is not empty and holds a
-- dot or a colon or is localhost; the image is what follows the slash. Otherwise the registry is
-- empty and the image is the whole name. Exactly behind docker.io, one leading library/ is left out
-- of the image.
pub split_image_name-IsSplit : (full : Text) → IsSplit full (split_image_name full)
unfolding split_image_name
split_image_name-IsSplit full =
    let (image, registry) = split_registry full in
    let c = split_registry-Cuts full in
    elim (Bool-cases (registry == codes "docker.io")) [
      | inl e ↦ simp e (trimmed-IsSplit full image registry c ((text_beq_iff _ _).0 e))
      | inr e ↦ simp e (
          kept-IsSplit full image registry c
            (λ k. cc_false (sym ((text_beq_iff registry (codes "docker.io")).1 k) ∙ e)))
    ]

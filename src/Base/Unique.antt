-- ===== src/Base/Unique.antt =====
-- Loops that keep a set of what was seen and append what is new.
use mathlib.Core.Path.{◌≡◌, refl}
use mathlib.Core.Logic.{◌↔◌, ◌⊎◌, inl, inr}
use mathlib.Core.Bool.{Bool, true, false}
use mathlib.Core.List.{List, [], ◌∷◌}
use native.Mathlib.Omega.{arith}
use scam.Base.Tests.{Eq, ◌==◌, if◌then◌else◌, Bool-cases}

-- Membership that computes.
abbrev pub In : {A : Type 0} → A → List A → Type 0
In a [] = ⊥
In a (x ∷ xs) = (x ≡ a) ⊎ In a xs

module _ {A : Type 0} ⦃e : Eq A⦄ where
  unfoldable pub contains : List A → A → Bool
  contains [] a = false
  contains (x ∷ xs) a = if x == a then true else contains xs a

  -- The loop, with the set of what was seen.
  unfoldable pub unique_from : List A → List A → List A
  unique_from seen [] = []
  unique_from seen (x ∷ xs) =
      let fresh = x ∷ unique_from (x ∷ seen) xs in
      let rest = unique_from seen xs in if contains seen x then rest else fresh

  pub contains_iff : (xs : List A) (a : A) → (contains xs a ≡ true) ↔ In a xs
  unfolding contains
  contains_iff [] a = ground arith
  contains_iff (x ∷ xs) a = ground (arith, e.same_iff x a, contains_iff xs a)

  unique_from-fresh : (seen xs : List A) (a : A) → In a seen → In a (unique_from seen xs) → ⊥
  unfolding unique_from
  unique_from-fresh seen [] a h k = k
  unique_from-fresh seen (x ∷ xs) a h k = ground (
    arith,
    contains_iff seen x,
    unique_from-fresh seen xs a h,
    unique_from-fresh (x ∷ seen) xs a (inr h),
  )

  -- No item occurs twice.
  abbrev pub IsUnique : List A → Type 0
  IsUnique [] = Unit
  IsUnique (x ∷ xs) = (In x xs → ⊥) × IsUnique xs

  pub unique_from-IsUnique : (seen xs : List A) → IsUnique (unique_from seen xs)
  unfolding unique_from
  unique_from-IsUnique seen [] = tt
  unique_from-IsUnique seen (x ∷ xs) = elim (Bool-cases (contains seen x)) [
    | inl h ↦ rw h (unique_from-IsUnique seen xs)
    | inr h ↦
        rw h (unique_from-fresh (x ∷ seen) xs x (inl refl), unique_from-IsUnique (x ∷ seen) xs)
  ]

  -- What comes out is what went in and was not seen before.
  pub unique_from_iff :
      (seen xs : List A) (a : A)
      → In a (unique_from seen xs) ↔ (In a xs × (contains seen a ≡ false))
  unfolding unique_from contains
  unique_from_iff seen [] a = ground arith
  unique_from_iff seen (x ∷ xs) a =
      ground (arith, e.same_iff x a, unique_from_iff seen xs a, unique_from_iff (x ∷ seen) xs a)

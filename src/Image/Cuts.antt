-- ===== src/Image/Cuts.antt =====
-- The cuts: what they leave out is the byte, and it does not occur on the one side.
use scam.Base.{ℕ, ◌≡◌, refl, Option, none, some, [], ◌∷◌, ◌++◌, arith, Text, Free}
use scam.Image.{cut_first, cut_last}

-- The result of a cut, with the side that is free of the byte.
abbrev pub CutsFirst : ℕ → Text → Option (Text × Text) → Type 0
CutsFirst c s none = Free c s
CutsFirst c s (some (l, r)) = (s ≡ l ++ c ∷ r) × Free c l

abbrev pub CutsLast : ℕ → Text → Option (Text × Text) → Type 0
CutsLast c s none = Free c s
CutsLast c s (some (l, r)) = (s ≡ l ++ c ∷ r) × Free c r

pub cut_first_lem : (c : ℕ) (s : Text) → CutsFirst c s (cut_first c s)
unfolding cut_first
cut_first_lem c [] = tt
cut_first_lem c (b ∷ s) = ground (arith, cut_first_lem c s)

pub cut_last_lem : (c : ℕ) (s : Text) → CutsLast c s (cut_last c s)
unfolding cut_last
cut_last_lem c [] = tt
cut_last_lem c (b ∷ s) = ground (arith, cut_last_lem c s)

pub cut_first-Free : (c : ℕ) (s : Text) → Free c s → cut_first c s ≡ none
unfolding cut_first
cut_first-Free c [] h = refl
cut_first-Free c (b ∷ s) h = ground (arith, cut_first-Free c s h.1)

pub cut_last-Free : (c : ℕ) (s : Text) → Free c s → cut_last c s ≡ none
unfolding cut_last
cut_last-Free c [] h = refl
cut_last-Free c (b ∷ s) h = ground (arith, cut_last-Free c s h.1)

pub cut_first-append : (c : ℕ) (l r : Text) → Free c l → cut_first c (l ++ c ∷ r) ≡ some (l, r)
unfolding cut_first
cut_first-append c [] r h = ground arith
cut_first-append c (b ∷ l) r h = ground (arith, cut_first-append c l r h.1)

pub cut_last-append : (c : ℕ) (l r : Text) → Free c r → cut_last c (l ++ c ∷ r) ≡ some (l, r)
unfolding cut_last
cut_last-append c [] r h = ground (arith, cut_last-Free c r h)
cut_last-append c (b ∷ l) r h = ground (arith, cut_last-append c l r h)

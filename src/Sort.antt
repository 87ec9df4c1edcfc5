-- ===== src/Sort.antt =====
-- sort.Slice by a comparison of texts, as DumpSorted of internal/collector/informer.go and the
-- discovery use it. The library's sort is not stable; an insertion sort stands for it, which is one
-- of its possible results, and the only one where the keys differ.
pub mod Laws
mod Tests
use scam.Base.{
  ℕ, ◌≡◌, Bool, true, false, ◌&&◌, List, [], ◌∷◌, Text, text_ltb, text_beq, if◌then◌else◌,
}

-- The lexicographic order of lists of texts.
unfoldable pub lex_ltb : List Text → List Text → Bool
lex_ltb [] [] = false
lex_ltb [] (t ∷ ts) = true
lex_ltb (s ∷ ss) [] = false
lex_ltb (s ∷ ss) (t ∷ ts) = if text_beq s t then lex_ltb ss ts else text_ltb s t

module _ {ℓ} {A : Type ℓ} (less : A → A → Bool) where
  unfoldable pub insert : A → List A → List A
  insert x [] = x ∷ []
  insert x (y ∷ ys) = if less x y then x ∷ y ∷ ys else y ∷ insert x ys

  unfoldable pub sort_slice : List A → List A
  sort_slice [] = []
  sort_slice (x ∷ xs) = insert x (sort_slice xs)

-- A comparison that goes by a list of texts: what a sorted dump relies on.
pub record IsKeyed {ℓ} {A : Type ℓ} (less : A → A → Bool) : Type ℓ where
  pub keys : A → List Text
  pub less-lex : (a b : A) → less a b ≡ lex_ltb (keys a) (keys b)

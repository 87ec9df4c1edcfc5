-- ===== src/Base/Sublists.antt =====
-- Sublists: what is left of a list when some items are taken out, in the same order.
use Prim.Native.Nat.{ℕ, zero, suc}
use mathlib.Core.List.{List, [], ◌∷◌, ◌++◌}
use scam.Base.Lists.{drop}

module _ {ℓ} {A : Type ℓ} where
  pub data Sub : List A → List A → Type ℓ where
    done : Sub [] []
    skip : {x : A} {xs ys : List A} → Sub xs ys → Sub xs (x ∷ ys)
    keep : {x : A} {xs ys : List A} → Sub xs ys → Sub (x ∷ xs) (x ∷ ys)

  pub Sub-refl : (xs : List A) → Sub xs xs
  Sub-refl [] = done
  Sub-refl (x ∷ xs) = keep (Sub-refl xs)

  pub Sub-nil : (ys : List A) → Sub [] ys
  Sub-nil [] = done
  Sub-nil (y ∷ ys) = skip (Sub-nil ys)

  pub Sub-trans : {ys zs : List A} → Sub ys zs → {xs : List A} → Sub xs ys → Sub xs zs
  Sub-trans done p = p
  Sub-trans (skip q) p = skip (Sub-trans q p)
  Sub-trans (keep q) (skip p) = skip (Sub-trans q p)
  Sub-trans (keep q) (keep p) = keep (Sub-trans q p)

  pub Sub-append : {xs ys us vs : List A} → Sub xs ys → Sub us vs → Sub (xs ++ us) (ys ++ vs)
  Sub-append done q = q
  Sub-append (skip p) q = skip (Sub-append p q)
  Sub-append (keep p) q = keep (Sub-append p q)

  pub Sub-drop : (n : ℕ) (xs : List A) → Sub (drop n xs) xs
  Sub-drop zero xs = Sub-refl xs
  Sub-drop (suc n) [] = done
  Sub-drop (suc n) (x ∷ xs) = skip (Sub-drop n xs)

  pub Sub-left : (xs ys : List A) → Sub xs (xs ++ ys)
  Sub-left [] ys = Sub-nil ys
  Sub-left (x ∷ xs) ys = keep (Sub-left xs ys)

-- ===== src/Sort/Laws.antt =====
-- A sort by keys gives a permutation in which no item stands before a smaller one.
use mathlib.Core.List.{Perm}
use mathlib.Core.List.Perm
use scam.Base.{
  ◌≡◌, refl, sym, ◌∙◌, inl, inr, Bool, true, false, List, [], ◌∷◌, arith, Text, text_ltb_irrefl,
  text_ltb_trans, text_ltb_total, text_beq_iff, Bool-cases, All,
}
use scam.Sort.{lex_ltb, insert, sort_slice, IsKeyed}

pub lex_ltb_irrefl : (ss : List Text) → lex_ltb ss ss ≡ false
unfolding lex_ltb
lex_ltb_irrefl [] = refl
lex_ltb_irrefl (s ∷ ss) = ground (arith, text_beq_iff s s, lex_ltb_irrefl ss)

pub lex_ltb_trans :
    (ss ts us : List Text) → lex_ltb ss ts ≡ true → lex_ltb ts us ≡ true → lex_ltb ss us ≡ true
unfolding lex_ltb
lex_ltb_trans [] [] us h k = cc
lex_ltb_trans [] (t ∷ ts) [] h k = cc
lex_ltb_trans [] (t ∷ ts) (u ∷ us) h k = refl
lex_ltb_trans (s ∷ ss) [] us h k = cc
lex_ltb_trans (s ∷ ss) (t ∷ ts) [] h k = cc
lex_ltb_trans (s ∷ ss) (t ∷ ts) (u ∷ us) h k = ground (
  arith,
  text_beq_iff s t,
  text_beq_iff t u,
  text_beq_iff s u,
  text_ltb_trans s t u,
  text_ltb_irrefl s,
  text_ltb_irrefl t,
  lex_ltb_trans ss ts us,
)

pub lex_ltb_total : (ss ts : List Text) → lex_ltb ss ts ≡ false → lex_ltb ts ss ≡ false → ss ≡ ts
unfolding lex_ltb
lex_ltb_total [] [] h k = refl
lex_ltb_total [] (t ∷ ts) h k = cc
lex_ltb_total (s ∷ ss) [] h k = cc
lex_ltb_total (s ∷ ss) (t ∷ ts) h k =
    ground (arith, text_beq_iff s t, text_beq_iff t s, text_ltb_total s t, lex_ltb_total ss ts)

lex_ltb_asymm : (ss ts : List Text) → lex_ltb ss ts ≡ true → lex_ltb ts ss ≡ false
lex_ltb_asymm ss ts h = ground (arith, lex_ltb_trans ss ts ss, lex_ltb_irrefl ss)

-- Not being smaller is transitive.
not_less_trans :
    (ss ts us : List Text) → lex_ltb ts ss ≡ false → lex_ltb us ts ≡ false → lex_ltb us ss ≡ false
not_less_trans ss ts us h k = elim (Bool-cases (lex_ltb us ss)) [
  | inr e ↦ e
  | inl e ↦ elim (Bool-cases (lex_ltb ss ts)) [
    | inl l ↦ ground (arith, lex_ltb_trans us ss ts e l)
    | inr n ↦ ground (arith, lex_ltb_total ss ts n h)
  ]
]

module _ {ℓ} {A : Type ℓ} {less : A → A → Bool} (o : IsKeyed less) where
  -- No item of the list is smaller than the item.
  abbrev pub IsLeast : A → List A → Type 0
  IsLeast x ys = All (λ y. lex_ltb (o.keys y) (o.keys x) ≡ false) ys

  -- No item stands before a smaller one.
  abbrev pub IsSorted : List A → Type 0
  IsSorted [] = Unit
  IsSorted (x ∷ xs) = IsLeast x xs × IsSorted xs

  IsLeast-mono :
      (x y : A) (zs : List A) → lex_ltb (o.keys y) (o.keys x) ≡ false → IsLeast y zs → IsLeast x zs
  IsLeast-mono x y [] h k = tt
  IsLeast-mono x y (z ∷ zs) h (l, k) =
      (not_less_trans (o.keys x) (o.keys y) (o.keys z) h l, IsLeast-mono x y zs h k)

  IsLeast-insert :
      (z x : A) (ys : List A)
      → lex_ltb (o.keys x) (o.keys z) ≡ false
      → IsLeast z ys
      → IsLeast z (insert less x ys)
  unfolding insert
  IsLeast-insert z x [] h k = (h, tt)
  IsLeast-insert z x (y ∷ ys) h (l, k) = ground (arith, IsLeast-insert z x ys h k)

  insert-IsSorted : (x : A) (ys : List A) → IsSorted ys → IsSorted (insert less x ys)
  unfolding insert
  insert-IsSorted x [] s = (tt, tt)
  insert-IsSorted x (y ∷ ys) (l, s) = elim (Bool-cases (less x y)) [
    | inl e ↦
        let above = lex_ltb_asymm (o.keys x) (o.keys y) (sym (o.less-lex x y) ∙ e) in
        rw e ((above, IsLeast-mono x y ys above l), (l, s))
    | inr e ↦ rw e (IsLeast-insert y x ys (sym (o.less-lex x y) ∙ e) l, insert-IsSorted x ys s)
  ]

  -- For a comparison that goes by a list of texts: in the sorted list no item stands before one whose
  -- keys are smaller.
  pub sort_slice-IsSorted : (xs : List A) → IsSorted (sort_slice less xs)
  unfolding sort_slice
  sort_slice-IsSorted [] = tt
  sort_slice-IsSorted (x ∷ xs) = insert-IsSorted x _ (sort_slice-IsSorted xs)

module _ {ℓ} {A : Type ℓ} (less : A → A → Bool) where
  insert-perm : (x : A) (ys : List A) → Perm (insert less x ys) (x ∷ ys)
  unfolding insert
  insert-perm x [] = Perm.refl (x ∷ [])
  insert-perm x (y ∷ ys) = elim (Bool-cases (less x y)) [
    | inl e ↦ rw e (Perm.refl _)
    | inr e ↦ rw e (Perm.trans (Perm.cons y (insert-perm x ys)) (Perm.swap x y ys))
  ]

  pub sort_slice-perm : (xs : List A) → Perm (sort_slice less xs) xs
  unfolding sort_slice
  sort_slice-perm [] = Perm.refl []
  sort_slice-perm (x ∷ xs) =
      Perm.trans (insert-perm x (sort_slice less xs)) (Perm.cons x (sort_slice-perm xs))

-- ===== src/Dynamic/Removal.antt =====
-- What RemoveNestedField of the package unstructured leaves alone: what stands at other paths.
use scam.Base.{
  ◌≡◌, refl, ap, ◌∙◌, inl, inr, Bool, true, false, Option, none, some, List, [], ◌∷◌, ◌>>=◌, arith,
  Text, if◌then◌else◌, text_eq, ◌==◌, text_beq, text_beq_iff, Bool-cases,
}
use scam.Kube.{Value, Fields, null, boolean, int, float, text, slice, object, end, field}
use scam.Dynamic.{Nested}
use scam.Dynamic.Sample.{
  find, walk, modify, delete, remove, sample, texts_of, submap, on_object, as_text, as_slice,
}

-- The two paths part at some key: neither goes on from the other.
abbrev pub parts : List Text → List Text → Bool
parts (a ∷ p) (b ∷ q) = if a == b then parts p q else true
parts _ _ = false

-- The accessors read the same behind a removal at a path that parts from theirs.
pub record IsRemoving (lib : Nested) : Type 0 where
  pub text_kept :
      (obj : Fields) (p q : List Text)
      → parts p q ≡ true
      → lib.nested_string (lib.remove_nested_field obj p) q ≡ lib.nested_string obj q
  pub slice_kept :
      (obj : Fields) (p q : List Text)
      → parts p q ≡ true
      → lib.nested_slice (lib.remove_nested_field obj p) q ≡ lib.nested_slice obj q
  pub texts_kept :
      (obj : Fields) (p q : List Text)
      → parts p q ≡ true
      → lib.nested_string_slice (lib.remove_nested_field obj p) q ≡ lib.nested_string_slice obj q

-- A key that is the first is not the second.
other_key : (i k j : Text) → text_beq i k ≡ true → text_beq k j ≡ false → text_beq i j ≡ false
other_key i k j e h = rw (← (text_beq_iff i k).0 e) at h

find-delete : (k j : Text) (fs : Fields) → text_beq k j ≡ false → find j (delete k fs) ≡ find j fs
unfolding find delete
find-delete k j end h = refl
find-delete k j (field i v fs) h = elim (Bool-cases (text_beq i k)) [
  | inl e ↦ rw (e, other_key i k j e h) (find-delete k j fs h)
  | inr e ↦ rw e (ap (λ o. if text_beq i j then some v else o) (find-delete k j fs h))
]

find-modify :
    (k j : Text) (f : Fields → Fields) (fs : Fields)
    → text_beq k j ≡ false
    → find j (modify k f fs) ≡ find j fs
unfolding find modify
find-modify k j f end h = refl
find-modify k j f (field i v fs) h = elim (Bool-cases (text_beq i k)) [
  | inl e ↦ rw (e, other_key i k j e h) refl
  | inr e ↦ rw e (ap (λ o. if text_beq i j then some v else o) (find-modify k j f fs h))
]

map_fields : (Fields → Fields) → Option Fields → Option Fields
map_fields f none = none
map_fields f (some m) = some (f m)

submap-on_object :
    (f : Fields → Fields) (v : Value)
    → submap (some (on_object f v)) ≡ map_fields f (submap (some v))
unfolding map_fields
submap-on_object f null = refl
submap-on_object f (boolean b) = refl
submap-on_object f (int n) = refl
submap-on_object f (float x) = refl
submap-on_object f (text s) = refl
submap-on_object f (slice xs) = refl
submap-on_object f (object m) = refl

find_modified :
    (k : Text) (f : Fields → Fields) (fs : Fields)
    → submap (find k (modify k f fs)) ≡ map_fields f (submap (find k fs))
unfolding find modify map_fields
find_modified k f end = refl
find_modified k f (field i v fs) = elim (Bool-cases (text_beq i k)) [
  | inl e ↦ rw (e, e) (submap-on_object f v)
  | inr e ↦ rw (e, e) (find_modified k f fs)
]

under :
    (o : Option Fields) (f : Fields → Fields) (g : Fields → Option Value)
    → ((m : Fields) → g (f m) ≡ g m)
    → (map_fields f o >>= g) ≡ (o >>= g)
unfolding map_fields
under none f g h = refl
under (some m) f g h = h m

walk-remove :
    (p q : List Text) (obj : Fields) → parts p q ≡ true → walk (remove obj p) q ≡ walk obj q
unfolding walk remove
walk-remove [] q obj h = cc
walk-remove (k ∷ p) [] obj h = cc
walk-remove (k ∷ []) (j ∷ []) obj h = find-delete k j obj (ground arith)
walk-remove (k ∷ []) (j ∷ i ∷ q) obj h =
    ap (λ o. submap o >>= λ m. walk m (i ∷ q)) (find-delete k j obj (ground arith))
walk-remove (k ∷ l ∷ p) (j ∷ []) obj h = find-modify k j _ obj (ground arith)
walk-remove (k ∷ l ∷ p) (j ∷ i ∷ q) obj h = elim (Bool-cases (text_beq k j)) [
  | inl e ↦
      let same : k ≡ j = (text_beq_iff k j).0 e in
      let inner : parts (l ∷ p) (i ∷ q) ≡ true = simp e at h in
      rw (← same) (
        ap (λ o. o >>= λ m. walk m (i ∷ q)) (find_modified k (λ m. remove m (l ∷ p)) obj)
        ∙ under (submap (find k obj)) (λ m. remove m (l ∷ p)) (λ m. walk m (i ∷ q))
            (λ m. walk-remove (l ∷ p) (i ∷ q) m inner))
  | inr e ↦ ap (λ o. submap o >>= λ m. walk m (i ∷ q)) (find-modify k j _ obj e)
]

-- The concrete library has the property.
pub sample-IsRemoving : IsRemoving sample
sample-IsRemoving = record {
  text_kept = λ obj p q h. ap as_text (walk-remove p q obj h);
  slice_kept = λ obj p q h. ap as_slice (walk-remove p q obj h);
  texts_kept = λ obj p q h.
      ap (λ o. elim (as_slice o) [ none ↦ none | some xs ↦ texts_of xs ]) (walk-remove p q obj h);
}

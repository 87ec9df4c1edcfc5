-- ===== src/Snapshot/Drafts.antt =====
-- A full snapshot against its description: which records it logs, in which order.
use scam.Base.{ℕ, ◌+◌, Bool, ◌≡◌, refl, ap, ◌∙◌, List, [], ◌∷◌, ◌++◌, arith, Text, codes, length}
use scam.Emit.{Log, Draft, stamped, plain, text, texts, number, put, put_all}
use scam.Emit.Ids.{put_all-append}
use scam.Sort.{sort_slice}
use scam.Informer.{emit_each, dump_sorted}
use scam.Snapshot.{emit_snapshot_keys}

-- The drafts of the items, one item after the other.
abbrev pub drafts_of : {A : Type 0} → (A → List Draft) → List A → List Draft
drafts_of f [] = []
drafts_of f (x ∷ xs) = f x ++ drafts_of f xs

abbrev pub sum_of : {A : Type 0} → (A → ℕ) → List A → ℕ
sum_of f [] = 0
sum_of f (x ∷ xs) = f x + sum_of f xs

abbrev pub dump_record : Text → ℕ → ℕ → Draft
dump_record kind cached emitted = plain (codes "initial snapshot") (
    (codes "kind", text kind)
    ∷ (codes "cached", number cached)
    ∷ (codes "emitted", number emitted)
    ∷ [])

abbrev pub keys_record : Text → Text → List Text → Draft
keys_record id kind keys = stamped (codes "SNAPSHOT") (codes "Snapshot") (
    (codes "snapshot_id", text id)
    ∷ (codes "target_kind", text kind)
    ∷ (codes "resource_keys", texts keys)
    ∷ [])

-- What the snapshot of a kind logs: the objects in order, the counts, and the keys.
abbrev pub section :
    {A : Type 0}
    → Text
    → Text
    → (A → List Draft)
    → (A → ℕ)
    → List A
    → (Text × List Text)
    → List Draft
section id dumped f count sorted (kind, keys) =
    drafts_of f sorted
    ++ dump_record dumped (length sorted) (sum_of count sorted) ∷ keys_record id kind keys ∷ []

module _ {A : Type 0} (f : A → List Draft) (count : A → ℕ) (one : A → Log → ℕ × Log) where
  emit_each-drafts :
      ((x : A) (l : Log) → one x l ≡ (count x, put_all (f x) l))
      → (n : ℕ) (xs : List A) (l : Log)
      → emit_each one n xs l ≡ (n + sum_of count xs, put_all (drafts_of f xs) l)
  unfolding emit_each put_all
  emit_each-drafts h n [] l = ap (λ k. (k, put_all [] l)) (omega arith)
  emit_each-drafts h n (x ∷ xs) l =
      rw (h x l, put_all-append (f x) (drafts_of f xs) l)
        (emit_each-drafts h (n + count x) xs (put_all (f x) l)
          ∙ ap (λ k. (k, put_all (drafts_of f xs) (put_all (f x) l))) (omega arith))

  -- DumpSorted, then the keys of the list that it leaves sorted.
  pub dump_sorted-section :
      ((x : A) (l : Log) → one x l ≡ (count x, put_all (f x) l))
      → (id dumped kind : Text) (less : A → A → Bool) (keys : List A → List Text) (xs : List A)
        (l : Log)
      → (let (sorted, m) = dump_sorted dumped less one xs l in
          emit_snapshot_keys id kind (keys sorted) m)
        ≡ put_all
            (section id dumped f count (sort_slice less xs) (kind, keys (sort_slice less xs)))
            l
  unfolding dump_sorted emit_snapshot_keys put_all put
  dump_sorted-section h id dumped kind less keys xs l =
      rw
        (
          emit_each-drafts h 0 (sort_slice less xs) l,
          put_all-append (drafts_of f (sort_slice less xs)) _ l,
          from_zero (sum_of count (sort_slice less xs)),
        )
        refl
    where
      from_zero : (n : ℕ) → 0 + n ≡ n
      from_zero n = omega arith

-- ===== src/Informer.antt =====
-- The gate of the informers' notices and the sorted dump: internal/collector/informer.go, and
-- UnstructuredList of helpers.go.
use scam.Base.{
  ℕ, ◌+◌, Bool, not, Option, none, some, List, [], ◌∷◌, Text, codes, length, if◌then◌else◌,
}
use scam.Kube.{Unstructured}
use scam.Emit.{Log, text, number, report}
use scam.Sort.{sort_slice}

-- What a handler is given as `any`: an object of the informer's type, a DeletedFinalStateUnknown
-- with the object in it, or something else.
pub data Any (A : Type 0) : Type 0 where
  typed : A → Any A
  tombstone : Any A → Any A
  other : Any A

unfoldable pub as_typed : {A : Type 0} → Any A → Option A
as_typed (typed a) = some a
as_typed _ = none

unfoldable pub extract_deleted : {A : Type 0} → Any A → Option A
extract_deleted (typed a) = some a
extract_deleted (tombstone (typed a)) = some a
extract_deleted _ = none

-- A call of one of the three handlers.
pub data Notice (A : Type 0) : Type 0 where
  added : Any A → Notice A
  updated : Any A → Any A → Notice A
  deleted : Any A → Notice A

-- The two callbacks of OnEvents; they change the state `S`.
pub record Handlers (A S : Type 0) : Type 0 where
  pub add_update : Text → A → Option A → S → S
  pub delete : A → S → S

module _ {A S : Type 0} (h : Handlers A S) where
  abbrev on_added : Option A → S → S
  on_added none s = s
  on_added (some a) s = h.add_update (codes "ADD") a none s

  abbrev on_updated : Option A → Option A → S → S
  on_updated none old s = s
  on_updated (some a) old s = h.add_update (codes "UPDATE") a old s

  abbrev on_deleted : Option A → S → S
  on_deleted none s = s
  on_deleted (some a) s = h.delete a s

  abbrev handle : Notice A → S → S
  handle (added a) s = on_added (as_typed a) s
  handle (updated old new) s = on_updated (as_typed new) (as_typed old) s
  handle (deleted a) s = on_deleted (extract_deleted a) s

  -- The handlers that OnEvents registers, by the value of `synced` that they load.
  unfoldable pub on_events : Bool → Notice A → S → S
  on_events synced n s = if not synced then s else handle n s

unfoldable pub unstructured_list : List (Any Unstructured) → List Unstructured
unstructured_list [] = []
unstructured_list (typed u ∷ objs) = u ∷ unstructured_list objs
unstructured_list (_ ∷ objs) = unstructured_list objs

module _ {A : Type 0} where
  -- The loop of DumpSorted.
  unfoldable pub emit_each : (A → Log → ℕ × Log) → ℕ → List A → Log → ℕ × Log
  emit_each one emitted [] l = (emitted, l)
  emit_each one emitted (x ∷ xs) l = let (k, m) = one x l in emit_each one (emitted + k) xs m

  -- The sort is in place: the caller's list is the sorted one afterwards.
  unfoldable pub dump_sorted :
      Text → (A → A → Bool) → (A → Log → ℕ × Log) → List A → Log → List A × Log
  dump_sorted kind less one items l =
      let sorted = sort_slice less items in
      let (emitted, m) = emit_each one 0 sorted l in
      (
        sorted,
        report (codes "initial snapshot")
            ((codes "kind", text kind)
              ∷ (codes "cached", number (length sorted))
              ∷ (codes "emitted", number emitted)
              ∷ [])
            m,
      )

-- ===== src/Push/Reconcile.antt =====
-- What the event ids decide: scanMaxEventID, last_pushed, and the reconcile snapshot.
use scam.Base.{
  ℕ, ◌≤◌, ◌≡◌, ◌≢◌, refl, ◌⊎◌, inl, true, none, some, List, [], ◌∷◌, ◌++◌, arith, Text, All,
}
use scam.Push.{Transport, scan_from, scan_max_event_id, higher_id}
use scam.Push.Loop.{Loop, Tick, Setting, cooled}

-- The id of a record, which counts as 0 where it has none.
abbrev pub id_of : Transport → Text → ℕ
id_of env r = elim (env.decode_event_id r) [ none ↦ 0 | some id ↦ id ]

-- Some record has the id.
abbrev pub Has : Transport → ℕ → List Text → Type 0
Has env m [] = ⊥
Has env m (r ∷ rs) = (env.decode_event_id r ≡ some m) ⊎ Has env m rs

abbrev IsAbove : Transport → ℕ → List Text → Type 0
IsAbove env m rs = All (λ r. id_of env r ≤ m) rs

scan_from_lem :
    (env : Transport) (m : ℕ) (rs : List Text)
    → (m ≤ scan_from env m rs)
      × IsAbove env (scan_from env m rs) rs
      × ((scan_from env m rs ≡ m) ⊎ Has env (scan_from env m rs) rs)
unfolding scan_from
scan_from_lem env m [] = (omega arith, tt, inl refl)
scan_from_lem env m (r ∷ rs) =
    ground (arith, scan_from_lem env (higher_id m (env.decode_event_id r)) rs)

-- scanMaxEventID is at least the id of every record, and it is 0 or the id of one of them.
pub scan_max_event_id_lem :
    (env : Transport) (rs : List Text)
    → IsAbove env (scan_max_event_id env rs) rs
      × ((scan_max_event_id env rs ≡ 0) ⊎ Has env (scan_max_event_id env rs) rs)
unfolding scan_max_event_id
scan_max_event_id_lem env rs = let h = scan_from_lem env 0 rs in (h.1, h.2)

-- What a tick may do to `last_pushed`, `last_snapshot_at` and stdout: without a snapshot, others'
-- lines alone may come in and the time stays; with one, its lines are there and so is its time.
pub record Moves (s : Setting) (lp : Loop) (t : Tick) (next : Loop) : Type 0 where
  pub pushed : lp.last_pushed ≤ next.last_pushed
  pub snapshot :
      ((next.last_snapshot_at ≡ lp.last_snapshot_at)
        × ((next.cap.stdout ≡ lp.cap.stdout) ⊎ (next.cap.stdout ≡ lp.cap.stdout ++ t.during)))
      ⊎ ((s.has_trigger ≡ true)
          × (cooled lp.last_snapshot_at t.now ≡ true)
          × (lp.cap.buf ≢ [])
          × (next.last_snapshot_at ≡ some t.done_at)
          × (seen : ℕ) × (seen ≢ 0)
          × (seen ≢ next.last_pushed)
          × (next.cap.stdout
              ≡ (lp.cap.stdout ++ t.during) ++ s.mismatch_line next.last_pushed seen ∷ t.snapshot))

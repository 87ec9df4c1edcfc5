-- ===== src/Push/Batches.antt =====
-- pushAll sends a prefix of the records, in batches within the limit, and returns the rest.
use scam.Base.{
  ℕ, zero, suc, ◌≤◌, ◌<◌, ◌≡◌, refl, sym, ap, ◌∙◌, ◌≢◌, ◌⊎◌, inl, inr, min, tests, true, false,
  some, List, [], ◌∷◌, ◌++◌, append-nil, append_assoc, arith, Text, length, take, drop, ltb,
  length-drop, length-take, take-append-drop, drop-length, Bool-cases, if◌then◌else◌,
}
use scam.Push.{
  Transport, Net, Pushed, Outcome, push, push_batches, push_all, next_batch, push_batch_limit,
}

-- A push delivers all of its records or none.
abbrev pub Delivers : Net → List Text → Pushed → Type 0
Delivers net records p =
    ((p.ok ≡ true) × (p.net.accepted ≡ net.accepted ++ records))
    ⊎ ((p.ok ≡ false) × (p.net.accepted ≡ net.accepted))

pub push-Delivers :
    (env : Transport) (net : Net) (records : List Text)
    → Delivers net records (push env net records)
unfolding push
push-Delivers env net [] = inl (refl, sym (append-nil _))
push-Delivers env net (r ∷ rs) = ground arith

module _ (limit : ℕ) where
  next_batch-split :
      (records : List Text)
      → next_batch limit records ++ drop (length (next_batch limit records)) records ≡ records
  unfolding next_batch
  next_batch-split records = elim (Bool-cases (ltb limit (length records))) [
    | inl e ↦ rw (e, length-take limit records) (cut e)
    | inr e ↦ rw (e, drop-length records) (append-nil records)
  ]
    where
      cut :
          ltb limit (length records) ≡ true
          → take limit records ++ drop (min limit (length records)) records ≡ records
      cut e =
          let least : min limit (length records) ≡ limit = omega tests in
          rw least (take-append-drop limit records)

  next_batch-pos :
      (records : List Text) → 0 < limit → 0 < length records → 0 < length (next_batch limit records)
  unfolding next_batch
  next_batch-pos records p h = ground (arith, length-take limit records)

  pub next_batch-le : (records : List Text) → length (next_batch limit records) ≤ limit
  unfolding next_batch
  next_batch-le records = ground (arith, length-take limit records)

-- What pushAll makes of the records: a prefix is accepted and the rest is returned; it fails
-- exactly when something is left.
pub record Splits (net : Net) (records : List Text) (o : Outcome) : Type 0 where
  pub sent : List Text
  pub whole : sent ++ o.unsent ≡ records
  pub accepted : o.net.accepted ≡ net.accepted ++ sent
  pub result : ((o.ok ≡ true) × (o.unsent ≡ [])) ⊎ ((o.ok ≡ false) × (o.unsent ≢ []))

-- A delivered batch in front of what the later ones deliver.
after_batch :
    {net : Net} {r : Text} {rs : List Text} (p : Pushed) {o : Outcome}
    → p.net.accepted ≡ net.accepted ++ next_batch push_batch_limit (r ∷ rs)
    → Splits p.net (drop (length (next_batch push_batch_limit (r ∷ rs))) (r ∷ rs)) o
    → Splits net (r ∷ rs) o
after_batch {net} {r} {rs} p delivered later = record {
  sent = batch ++ later.sent;
  whole =
      append_assoc batch later.sent _
      ∙ ap (◌++◌ batch) later.whole
      ∙ next_batch-split push_batch_limit (r ∷ rs);
  accepted =
      later.accepted
      ∙ ap (λ a. a ++ later.sent) delivered
      ∙ append_assoc net.accepted batch later.sent;
  result = later.result;
}
  where
    batch : List Text
    batch = next_batch push_batch_limit (r ∷ rs)

abbrev Ends : Transport → ℕ → Net → ℕ → List Text → Type 0
Ends env f net seen records =
    (o : Outcome) × (push_batches env f net seen records ≡ some o) × Splits net records o

push_batches_round :
    (env : Transport) (f : ℕ) (net : Net) (seen : ℕ) (r : Text) (rs : List Text)
    → length (r ∷ rs) ≤ suc f
    → ((next : Net) (higher : ℕ) (records : List Text)
        → length records ≤ f
        → Ends env f next higher records)
    → Ends env (suc f) net seen (r ∷ rs)
unfolding push_batches
push_batches_round env f net seen r rs h ih = elim (push-Delivers env net batch) [
  | inl (e, delivered) ↦ rw e (went_on delivered)
  | inr (e, kept) ↦ rw e (
    _,
    refl,
    record {
      sent = [];
      whole = refl;
      accepted = kept ∙ sym (append-nil _);
      result = inr (refl, λ k. cc);
    },
  )
]
  where
    batch : List Text
    batch = next_batch push_batch_limit (r ∷ rs)

    p : Pushed
    p = push env net batch

    higher : ℕ
    higher = if ltb seen p.seen then p.seen else seen

    tail : List Text
    tail = drop (length batch) (r ∷ rs)

    shorter : length tail ≤ f
    shorter = omega (
      arith,
      length-drop (length batch) (r ∷ rs),
      next_batch-pos push_batch_limit (r ∷ rs) (omega arith) (omega arith),
    )

    went_on :
        p.net.accepted ≡ net.accepted ++ batch
        → (o : Outcome) × (push_batches env f p.net higher tail ≡ some o) × Splits net (r ∷ rs) o
    went_on delivered =
        let (o, found, later) = ih p.net higher tail shorter in
        (o, found, after_batch p delivered later)

push_batches-Splits :
    (env : Transport) (f : ℕ) (net : Net) (seen : ℕ) (records : List Text)
    → length records ≤ f
    → Ends env f net seen records
unfolding push_batches
push_batches-Splits env f net seen [] h = (
  _,
  refl,
  record { sent = []; whole = refl; accepted = sym (append-nil _); result = inl (refl, refl) },
)
push_batches-Splits env zero net seen (r ∷ rs) h = absurd (omega arith)
push_batches-Splits env (suc f) net seen (r ∷ rs) h =
    push_batches_round env f net seen r rs h (push_batches-Splits env f)

-- pushAll always returns. What it sent, as SPAM accepted it, and what it returns as unsent make up
-- the records in order; it reports a failure exactly when some are unsent.
pub push_all-Splits :
    (env : Transport) (net : Net) (records : List Text)
    → (o : Outcome) × (push_all env net records ≡ some o) × Splits net records o
unfolding push_all
push_all-Splits env net records =
    push_batches-Splits env (length records) net 0 records (omega arith)

-- ===== src/Push/Requests.antt =====
-- How many requests the loop makes: at most five for a flush, and none once its context has ended.
use scam.Base.{
  ℕ, zero, suc, ◌+◌, ◌/◌, ◌≤◌, ◌≡◌, ◌⊎◌, inl, inr, min, true, false, some, List, [], ◌∷◌, arith,
  Text, length, drop, ltb, length-drop, length-take, Bool-cases, Option-cases, subst, ◌-◌,
  if◌then◌else◌, tests,
}
use scam.Capture.{flush}
use scam.Push.{
  Transport, Net, Pushed, Outcome, push, posted, answered, push_batches, push_all, next_batch,
  push_batch_limit, push_interval,
}
use scam.Push.Delivery.{run-Inv, start-Inv, Inv}
use scam.Push.Loop.{
  Loop, Tick, Event, line, tick, shutdown, Setting, start, write_all, reconcile, settle, sent,
  attempt, on_tick, stopped, on_done, step, run,
}

push-calls :
    (env : Transport) (net : Net) (records : List Text)
    → (push env net records).net.calls ≤ net.calls + 1
unfolding push posted answered
push-calls env net [] = omega arith
push-calls env net (r ∷ rs) = ground arith

-- The requests that so many records need.
abbrev pub batches_for : ℕ → ℕ
batches_for n = (n + 1999) / 2000

module _ (limit : ℕ) where
  batch-length :
      (records : List Text) → length (next_batch limit records) ≡ min limit (length records)
  unfolding next_batch
  batch-length records = elim (Bool-cases (ltb limit (length records))) [
    | inl e ↦ rw e (length-take limit records)
    | inr e ↦ rw e (omega tests)
  ]

push_batches-calls :
    (env : Transport) (f : ℕ) (net : Net) (seen : ℕ) (records : List Text) (o : Outcome)
    → push_batches env f net seen records ≡ some o
    → o.net.calls ≤ net.calls + batches_for (length records)
unfolding push_batches
push_batches-calls env f net seen [] o e = ground arith
push_batches-calls env zero net seen (r ∷ rs) o e = ground arith
push_batches-calls env (suc f) net seen (r ∷ rs) o e = elim (Bool-cases p.ok) [
  | inl h ↦
      let later : o.net.calls ≤ p.net.calls + batches_for (length tail) =
        push_batches-calls env f p.net higher tail o (simp h at e) in
      omega (
        arith,
        later,
        push-calls env net batch,
        length-drop (length batch) (r ∷ rs),
        batch-length push_batch_limit (r ∷ rs),
      )
  | inr h ↦ let left = simp h at e in let once = push-calls env net batch in ground arith
]
  where
    batch : List Text
    batch = next_batch push_batch_limit (r ∷ rs)

    p : Pushed
    p = push env net batch

    higher : ℕ
    higher = if ltb seen p.seen then p.seen else seen

    tail : List Text
    tail = drop (length batch) (r ∷ rs)

push_all-calls :
    (env : Transport) (net : Net) (records : List Text) (o : Outcome)
    → push_all env net records ≡ some o
    → o.net.calls ≤ net.calls + batches_for (length records)
unfolding push_all
push_all-calls env net records o e = push_batches-calls env (length records) net 0 records o e

settle-net :
    (s : Setting) (lp : Loop) (t : Tick) (records : List Text) (o : Outcome)
    → (settle s lp t records o).net.calls ≡ o.net.calls
unfolding settle reconcile
settle-net s lp t records o = ground arith

sent-calls :
    (s : Setting) (lp : Loop) (t : Tick) (records : List Text) (next : Loop)
    → sent s lp t records ≡ some next
    → next.net.calls ≤ lp.net.calls + batches_for (length records)
unfolding sent
sent-calls s lp t [] next e = ground arith
sent-calls s lp t (r ∷ rs) next e = elim (Option-cases (push_all s.env lp.net (r ∷ rs))) [
  | inl missing ↦ ground arith
  | inr (o, ok) ↦
      let calls = push_all-calls s.env lp.net (r ∷ rs) o ok in
      let same = settle-net s (record lp { cap = write_all lp.cap t.during }) t (r ∷ rs) o in
      ground arith
]

on_tick-calls :
    (s : Setting) (lp : Loop) (t : Tick) (next : Loop)
    → on_tick s lp t ≡ some next
    → next.net.calls ≤ lp.net.calls + batches_for (length lp.cap.buf)
unfolding on_tick attempt flush
on_tick-calls s lp t next e = elim (Bool-cases (ltb 0 lp.backoff)) [
  | inl h ↦ elim (Bool-cases (ltb 0 (lp.backoff - push_interval))) [
    | inl k ↦ ground arith
    | inr k ↦ sent-calls s _ t lp.cap.buf next (simp (h, k) at e)
  ]
  | inr h ↦ sent-calls s _ t lp.cap.buf next (simp h at e)
]

on_done-calls :
    (s : Setting) (lp next : Loop)
    → on_done s lp ≡ some next
    → next.net.calls ≤ lp.net.calls + batches_for (length lp.cap.buf)
unfolding on_done flush stopped
on_done-calls s lp next e = elim (Option-cases (push_all s.env lp.net lp.cap.buf)) [
  | inl missing ↦ ground arith
  | inr (o, ok) ↦ let calls = push_all-calls s.env lp.net lp.cap.buf o ok in ground arith
]

step-calls :
    (s : Setting) (lp : Loop) (e : Event) (next : Loop)
    → step s lp e ≡ some next
    → ((lp.running ≡ true) × (next.net.calls ≤ lp.net.calls + batches_for (length lp.cap.buf)))
      ⊎ ((lp.running ≡ false) × (next.net ≡ lp.net))
unfolding step
step-calls s lp (line p) next f = elim (Bool-cases lp.running) [
  | inl up ↦ inl (up, ground arith)
  | inr down ↦ inr (down, ground arith)
]
step-calls s lp (tick t) next f = elim (Bool-cases lp.running) [
  | inl up ↦ inl (up, on_tick-calls s lp t next (simp up at f))
  | inr down ↦ inr (down, ground arith)
]
step-calls s lp shutdown next f = elim (Bool-cases lp.running) [
  | inl up ↦ inl (up, on_done-calls s lp next (simp up at f))
  | inr down ↦ inr (down, ground arith)
]

-- After any events, one more makes at most five requests while the loop runs, since the buffer
-- holds at most max_buffer_size lines and a request takes push_batch_limit of them; once the loop
-- has ended, there is no request and nothing is accepted any more.
pub run-requests :
    (s : Setting) (es : List Event) (e : Event) (lp next : Loop)
    → run s start es ≡ some lp
    → step s lp e ≡ some next
    → ((lp.running ≡ true) × (next.net.calls ≤ lp.net.calls + 5))
      ⊎ ((lp.running ≡ false) × (next.net ≡ lp.net))
run-requests s es e lp next found f =
    let (lp', found', v) = run-Inv s start es start-Inv in
    let same : lp' ≡ lp = ground arith in
    let bounded = (subst Inv same v).keeps.bounded in
    elim (step-calls s lp e next f) [
      | inl (up, calls) ↦ inl (up, omega (arith, calls, bounded))
      | inr kept ↦ inr kept
    ]

-- ===== src/Push/Recovery.antt =====
-- What the loop delivers once the network is up again.
use scam.Base.{
  subst, ℕ, zero, suc, ◌≤◌, ◌≡◌, refl, sym, ap, ◌∙◌, inl, inr, true, Option, some, List, [], ◌∷◌,
  ◌++◌, append-nil, arith, Text, length, Bool-cases,
}
use scam.Capture.{flush, max_buffer_size}
use scam.Push.{
  Transport, Net, Outcome, Reply, push, posted, answered, push_batches, push_all, next_batch,
  push_batch_limit,
}
use scam.Push.Batches.{Splits, push_all-Splits}
use scam.Push.Backoff.{run-attempt}
use scam.Push.Delivery.{run-whole}
use scam.Push.History.{json_lines}
use scam.Push.Loop.{
  Loop, Tick, Event, line, tick, shutdown, Setting, start, write_all, mismatch, reconcile, settle,
  sent, attempt, stopped, on_done, step, run,
}

-- From the n-th request on, SPAM answers each of them with 200.
pub record IsUp (env : Transport) (n : ℕ) : Type 0 where
  pub marshals : (records : List Text) → (body : Text) × (env.marshal records ≡ some body)
  pub builds : env.can_build ≡ true
  pub answers :
      (k : ℕ) (body : Text) → n ≤ k → (r : Reply) × (env.post k body ≡ some r) × (r.status ≡ 200)

module _ (env : Transport) (n : ℕ) (up : IsUp env n) where
  push-ok :
      (net : Net) (records : List Text)
      → n ≤ net.calls
      → let p = push env net records in (p.ok ≡ true) × (net.calls ≤ p.net.calls)
  unfolding push posted answered
  push-ok net [] h = (refl, omega arith)
  push-ok net (r ∷ rs) h =
      let (body, made) = up.marshals (r ∷ rs) in
      let (reply, came, fine) = up.answers net.calls body h in
      rw (made, up.builds, came, fine) (refl, omega arith)

  push_batches-ok :
      (f : ℕ) (net : Net) (seen : ℕ) (records : List Text) (o : Outcome)
      → n ≤ net.calls
      → push_batches env f net seen records ≡ some o
      → o.ok ≡ true
  unfolding push_batches
  push_batches-ok f net seen [] o h e = ground arith
  push_batches-ok zero net seen (r ∷ rs) o h e = ground arith
  push_batches-ok (suc f) net seen (r ∷ rs) o h e =
      let batch = next_batch push_batch_limit (r ∷ rs) in
      let (fine, more) = push-ok net batch h in
      push_batches-ok f (push env net batch).net _ _ o (omega arith) (rw fine at e)

  push_all-delivers :
      (net : Net) (records : List Text)
      → n ≤ net.calls
      → (o : Outcome) × (push_all env net records ≡ some o)
        × (o.ok ≡ true)
        × (o.net.accepted ≡ net.accepted ++ records)
  unfolding push_all
  push_all-delivers net records h =
      let (o, found, sp) = push_all-Splits env net records in
      let fine = push_batches-ok (length records) net 0 records o h found in
      (o, found, fine, all_sent o sp fine)
    where
      all_sent :
          (o : Outcome)
          → Splits net records o
          → o.ok ≡ true
          → o.net.accepted ≡ net.accepted ++ records
      all_sent o sp fine = elim sp.result [
        | inl (_, none_left) ↦
            sp.accepted
            ∙ ap (◌++◌ net.accepted) (sym (append-nil sp.sent) ∙ rw (← none_left) sp.whole)
        | inr (e, _) ↦ absurd cc
      ]

-- The step returns, and SPAM has accepted so many lines more.
abbrev pub Delivers : Loop → List Text → Option Loop → Type 0
Delivers lp records r =
    (next : Loop) × (r ≡ some next) × (next.net.accepted ≡ lp.net.accepted ++ records)

reconcile-net :
    (s : Setting) (lp : Loop) (seen : ℕ) (t : Tick) → (reconcile s lp seen t).net ≡ lp.net
unfolding reconcile
reconcile-net s lp seen t = elim (Bool-cases (mismatch s lp seen t.now)) [
  | inl e ↦ rw e refl
  | inr e ↦ rw e refl
]

module _ (s : Setting) where
  sent-Delivers :
      (lp : Loop) (t : Tick) (records : List Text)
      → IsUp s.env lp.net.calls
      → Delivers lp records (sent s lp t records)
  unfolding sent settle
  sent-Delivers lp t [] up = (lp, refl, sym (append-nil _))
  sent-Delivers lp t (r ∷ rs) up =
      let (o, found, fine, all) =
        push_all-delivers s.env lp.net.calls up lp.net (r ∷ rs) (omega arith) in
      (
        settle s (record lp { cap = write_all lp.cap t.during }) t (r ∷ rs) o,
        rw found refl,
        rw fine (ap (λ n. n.accepted) (reconcile-net s _ _ t) ∙ all),
      )

  attempt-Delivers :
      (lp : Loop) (t : Tick) → IsUp s.env lp.net.calls → Delivers lp lp.cap.buf (attempt s lp t)
  unfolding attempt flush
  attempt-Delivers lp t up = sent-Delivers _ t lp.cap.buf up

  on_done-Delivers : (lp : Loop) → IsUp s.env lp.net.calls → Delivers lp lp.cap.buf (on_done s lp)
  unfolding on_done flush stopped
  on_done-Delivers lp up =
      let (o, found, fine, all) =
        push_all-delivers s.env lp.net.calls up lp.net lp.cap.buf (omega arith) in
      (stopped lp (record lp.cap { buf = [] }) o, rw found refl, all)

-- The events at which the loop pushes: a tick, and the end of the context.
abbrev pub IsFlush : Event → Type 0
IsFlush (line p) = ⊥
IsFlush (tick t) = Unit
IsFlush shutdown = Unit

-- What was in the buffer before the event is with SPAM after it.
pub step-Delivers :
    (s : Setting) (es : List Event) (lp : Loop) (e : Event)
    → run s start es ≡ some lp
    → lp.running ≡ true
    → IsUp s.env lp.net.calls
    → IsFlush e
    → Delivers lp lp.cap.buf (step s lp e)
unfolding step
step-Delivers s es lp (line p) found run_on up nothing = absurd nothing
step-Delivers s es lp (tick t) found run_on up flushes = simp run_on (
    subst (Delivers lp lp.cap.buf) (sym (run-attempt s es lp t found))
      (attempt-Delivers s (record lp { backoff = 0 }) t up))
step-Delivers s es lp shutdown found run_on up flushes = simp run_on (on_done-Delivers s lp up)

-- After any run, and any failures in it, once the network is up the very next tick, or the end of
-- the context, delivers everything: as long as the JSON lines written before it fit the buffer and
-- the loop runs, SPAM has then accepted all of them, in order.
pub run-recovers :
    (s : Setting) (es : List Event) (lp : Loop) (e : Event)
    → run s start es ≡ some lp
    → lp.running ≡ true
    → length (json_lines lp.cap.stdout) ≤ max_buffer_size
    → IsUp s.env lp.net.calls
    → IsFlush e
    → (next : Loop) × (step s lp e ≡ some next) × (next.net.accepted ≡ json_lines lp.cap.stdout)
run-recovers s es lp e found run_on fits up flushes =
    let (next, stepped, all) = step-Delivers s es lp e found run_on up flushes in
    (next, stepped, all ∙ run-whole s es lp found run_on fits)

-- ===== src/Push/Delivery.antt =====
-- No line is lost, sent twice after SPAM accepted it, or reordered, whatever the network does.
use mathlib.Core.Path.{subst}
use scam.Base.{
  ℕ, ◌≤◌, ◌≡◌, refl, sym, ap, ◌∙◌, inl, inr, true, false, Option, some, List, [], ◌∷◌, ◌++◌,
  append-nil, arith, Text, length, ltb, Sub-refl, Sub-trans, Sub-append, Bool-cases, done, ◌-◌,
  Sub-left,
}
use scam.Capture.{flush, max_buffer_size}
use scam.Push.{Outcome, push_interval}
use scam.Push.Batches.{Splits, push_all-Splits}
use scam.Push.History.{
  json_lines, Keeps, IsWhole, write-Keeps, write-IsWhole, write_all-Keeps, write_all-IsWhole,
  taken-Keeps, taken-IsWhole, rebuffer-Keeps, rebuffer-IsWhole,
}
use scam.Push.Loop.{
  Loop, Tick, Event, line, tick, shutdown, Setting, start, write_all, wrote, mismatch, reconcile,
  stopped, settle, sent, attempt, on_tick, on_done, step, run,
}

-- The lines accepted by SPAM and those in the buffer, against all that were captured.
pub record Inv (lp : Loop) : Type 0 where
  pub keeps : Keeps lp.net.accepted lp.cap
  pub whole : lp.running ≡ true → IsWhole lp.net.accepted lp.cap

-- A step returns, and the next state is sound.
abbrev pub Returns : Option Loop → Type 0
Returns r = (lp : Loop) × (r ≡ some lp) × Inv lp

pub start-Inv : Inv start
unfolding start json_lines
start-Inv = record {
  keeps = record { bounded = omega arith; ordered = done };
  whole = λ e. record { whole = λ h. refl };
}

reconcile-Inv :
    (s : Setting) (lp : Loop) (seen : ℕ) (t : Tick) → Inv lp → Inv (reconcile s lp seen t)
unfolding reconcile
reconcile-Inv s lp seen t v = elim (Bool-cases (mismatch s lp seen t.now)) [
  | inl e ↦ rw e (record {
    keeps = write_all-Keeps lp.net.accepted lp.cap lines v.keeps;
    whole = λ k. write_all-IsWhole lp.net.accepted lp.cap lines (v.whole k);
  })
  | inr e ↦ rw e v
]
  where
    lines : List Text
    lines = s.mismatch_line lp.last_pushed seen ∷ t.snapshot

-- After the push of `records`, taken from the buffer: `lp` still holds what SPAM had accepted.
module _ (s : Setting) (lp : Loop) (t : Tick) (records : List Text) (o : Outcome) where
  settle-Inv :
      Splits lp.net records o
      → Keeps (lp.net.accepted ++ records) lp.cap
      → IsWhole (lp.net.accepted ++ records) lp.cap
      → Inv (settle s lp t records o)
  unfolding settle
  settle-Inv sp k w = elim sp.result [
    | inl (e, none_left) ↦ rw e (
        let all : o.net.accepted ≡ lp.net.accepted ++ records =
          sp.accepted
          ∙ ap (◌++◌ lp.net.accepted) (sym (append-nil sp.sent) ∙ rw (← none_left) sp.whole) in
        reconcile-Inv s _ o.last_seen t (record { keeps = rw all k; whole = λ _. rw all w }))
    | inr (e, _) ↦ rw e (record {
      keeps =
          rw sp.accepted (rebuffer-Keeps lp.net.accepted sp.sent o.unsent lp.cap (rw sp.whole k));
      whole = λ _.
          rw sp.accepted (rebuffer-IsWhole lp.net.accepted sp.sent o.unsent lp.cap (rw sp.whole w));
    })
  ]

sent-Inv :
    (s : Setting) (lp : Loop) (t : Tick) (records : List Text)
    → Keeps (lp.net.accepted ++ records) lp.cap
    → IsWhole (lp.net.accepted ++ records) lp.cap
    → Returns (sent s lp t records)
unfolding sent
sent-Inv s lp t [] k w =
    (lp, refl, record { keeps = rw append-nil at k; whole = λ _. rw append-nil at w })
sent-Inv s lp t (r ∷ rs) k w =
    let (o, found, sp) = push_all-Splits s.env lp.net (r ∷ rs) in
    (
      _,
      rw found refl,
      settle-Inv s (record lp { cap = write_all lp.cap t.during }) t (r ∷ rs) o sp
          (write_all-Keeps _ lp.cap t.during k) (write_all-IsWhole _ lp.cap t.during w),
    )

attempt-Inv :
    (s : Setting) (lp : Loop) (t : Tick) → lp.running ≡ true → Inv lp → Returns (attempt s lp t)
unfolding attempt flush
attempt-Inv s lp t up v =
    sent-Inv s _ t lp.cap.buf (taken-Keeps lp.net.accepted lp.cap v.keeps)
      (taken-IsWhole lp.net.accepted lp.cap (v.whole up))

on_tick-Inv :
    (s : Setting) (lp : Loop) (t : Tick) → lp.running ≡ true → Inv lp → Returns (on_tick s lp t)
unfolding on_tick
on_tick-Inv s lp t up v = elim (Bool-cases (ltb 0 lp.backoff)) [
  | inl e ↦ elim (Bool-cases (ltb 0 (lp.backoff - push_interval))) [
    | inl e' ↦ rw (e, e') (_, refl, record { keeps = v.keeps; whole = v.whole })
    | inr e' ↦
        rw (e, e')
          (attempt-Inv s (record lp { backoff = 0 }) t up
            (record { keeps = v.keeps; whole = v.whole }))
  ]
  | inr e ↦ rw e (attempt-Inv s lp t up v)
]

on_done-Inv : (s : Setting) (lp : Loop) → Inv lp → Returns (on_done s lp)
unfolding on_done flush stopped
on_done-Inv s lp v =
    let (o, found, sp) = push_all-Splits s.env lp.net lp.cap.buf in
    (
      stopped lp (record lp.cap { buf = [] }) o,
      rw found refl,
      record { keeps = kept o sp; whole = λ (e : false ≡ true). cc },
    )
  where
    kept :
        (o : Outcome)
        → Splits lp.net lp.cap.buf o
        → Keeps o.net.accepted (record lp.cap { buf = [] })
    kept o sp = record {
      bounded = omega arith;
      ordered =
          rw (sp.accepted, append-nil)
            (Sub-trans v.keeps.ordered (
              Sub-append (Sub-refl lp.net.accepted) (rw (← sp.whole) (Sub-left sp.sent o.unsent))));
    }

step-Inv : (s : Setting) (lp : Loop) (e : Event) → Inv lp → Returns (step s lp e)
unfolding step
step-Inv s lp (line p) v = (
  _,
  refl,
  record {
    keeps = write-Keeps lp.net.accepted lp.cap p wrote v.keeps;
    whole = λ up. write-IsWhole lp.net.accepted lp.cap p wrote (v.whole up);
  },
)
step-Inv s lp (tick t) v = elim (Bool-cases lp.running) [
  | inl e ↦ simp e (on_tick-Inv s lp t e v)
  | inr e ↦ simp e (lp, refl, v)
]
step-Inv s lp shutdown v = elim (Bool-cases lp.running) [
  | inl e ↦ simp e (on_done-Inv s lp v)
  | inr e ↦ simp e (lp, refl, v)
]

pub run-Inv : (s : Setting) (lp : Loop) (es : List Event) → Inv lp → Returns (run s lp es)
unfolding run
run-Inv s lp [] v = (lp, refl, v)
run-Inv s lp (e ∷ es) v =
    let (next, found, v') = step-Inv s lp e v in rw (found, run) (run-Inv s next es v')

-- Whatever is written and however the network answers, the loop returns a state for every sequence
-- of events. In it the buffer is within max_buffer_size, and the lines that SPAM accepted, followed
-- by those in the buffer, are a sublist of the JSON lines written, in their order: none is accepted
-- twice, reordered or made up.
pub run-Keeps :
    (s : Setting) (es : List Event)
    → (lp : Loop) × (run s start es ≡ some lp) × Keeps lp.net.accepted lp.cap
run-Keeps s es = let (lp, found, v) = run-Inv s start es start-Inv in (lp, found, v.keeps)

-- While the loop runs, and the JSON lines ever written are at most max_buffer_size, the lines that
-- SPAM accepted followed by those in the buffer are all of them, in order.
pub run-whole :
    (s : Setting) (es : List Event) (lp : Loop)
    → run s start es ≡ some lp
    → lp.running ≡ true
    → length (json_lines lp.cap.stdout) ≤ max_buffer_size
    → lp.net.accepted ++ lp.cap.buf ≡ json_lines lp.cap.stdout
run-whole s es lp found up fits =
    let (lp', found', v) = run-Inv s start es start-Inv in
    let same : lp' ≡ lp = ground arith in
    (subst (λ q. q.running ≡ true → IsWhole q.net.accepted q.cap) same v.whole up).whole fits

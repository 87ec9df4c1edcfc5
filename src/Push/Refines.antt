-- ===== src/Push/Refines.antt =====
-- PushLoop and LineCapture implement the queue: each step is a sequence of its moves.
use scam.Base.{
  ℕ, ◌-◌, ◌≡◌, sym, ap, ◌∙◌, subst, inl, inr, true, some, List, [], ◌∷◌, ◌++◌, append_assoc,
  append-nil, arith, Text, ltb, Bool-cases, Option-cases,
}
use scam.Capture.{LineCapture, flush}
use scam.Push.{Outcome, push_interval}
use scam.Push.Batches.{Splits, push_all-Splits}
use scam.Push.History.{json_lines}
use scam.Push.Loop.{
  Loop, Tick, Event, line, tick, shutdown, Setting, start, write_all, mismatch, reconcile, settle,
  sent, attempt, on_tick, stopped, on_done, step, run,
}
use scam.Push.Honest.{At}
use scam.Push.Overflow.{with_taken, write-QueueSteps, write_all-QueueSteps, rebuffer-QueueSteps}
use scam.Push.Queue.{
  Queue, queue, deliver, close, QueueSteps, none_yet, and_then, QueueSteps-trans, one, empty,
}

abbrev pub queue_of : Loop → Queue
queue_of lp = queue lp.running (json_lines lp.cap.stdout) lp.net.accepted lp.cap.buf

-- What was delivered of the taken records leaves the queue.
deliver-QueueSteps :
    (lp : Loop) (records : List Text) (o : Outcome) (cap : LineCapture)
    → lp.running ≡ true
    → Splits lp.net records o
    → QueueSteps
        (with_taken lp.running lp.net.accepted records cap)
        (with_taken lp.running o.net.accepted o.unsent cap)
deliver-QueueSteps lp records o cap up sp =
    subst
      (λ accepted.
        QueueSteps (with_taken lp.running lp.net.accepted records cap)
          (with_taken lp.running accepted o.unsent cap))
      (sym sp.accepted)
      (one (
        deliver sp.sent (o.unsent ++ cap.buf) up
          (ap (λ rs. rs ++ cap.buf) (sym sp.whole) ∙ append_assoc sp.sent o.unsent cap.buf)))

reconcile-QueueSteps :
    (s : Setting) (lp : Loop) (seen : ℕ) (t : Tick)
    → QueueSteps (queue_of lp) (queue_of (reconcile s lp seen t))
unfolding reconcile
reconcile-QueueSteps s lp seen t = elim (Bool-cases (mismatch s lp seen t.now)) [
  | inl e ↦ rw e (
      write_all-QueueSteps lp.running lp.net.accepted [] lp.cap
        (s.mismatch_line lp.last_pushed seen ∷ t.snapshot))
  | inr e ↦ rw e none_yet
]

settle-QueueSteps :
    (s : Setting) (lp : Loop) (t : Tick) (records : List Text) (o : Outcome)
    → lp.running ≡ true
    → Splits lp.net records o
    → QueueSteps
        (with_taken lp.running lp.net.accepted records lp.cap)
        (queue_of (settle s lp t records o))
unfolding settle
settle-QueueSteps s lp t records o up sp =
    let delivered = deliver-QueueSteps lp records o lp.cap up sp in
    elim sp.result [
      | inl (e, none_left) ↦
          rw e
            (QueueSteps-trans (rw none_left at delivered) (reconcile-QueueSteps s _ o.last_seen t))
      | inr (e, _) ↦ rw e (
          QueueSteps-trans delivered
            (rebuffer-QueueSteps lp.running o.net.accepted o.unsent lp.cap))
    ]

to_next :
    {q : Queue} {lp next : Loop}
    → some lp ≡ some next
    → QueueSteps q (queue_of lp)
    → QueueSteps q (queue_of next)
to_next {q} e ms = subst (At (λ lp. QueueSteps q (queue_of lp))) e ms

sent-QueueSteps :
    (s : Setting) (lp : Loop) (t : Tick) (records : List Text) (next : Loop)
    → lp.running ≡ true
    → sent s lp t records ≡ some next
    → QueueSteps (with_taken lp.running lp.net.accepted records lp.cap) (queue_of next)
unfolding sent
sent-QueueSteps s lp t [] next up e = to_next e none_yet
sent-QueueSteps s lp t (r ∷ rs) next up e =
    let (o, found, sp) = push_all-Splits s.env lp.net (r ∷ rs) in
    let mid : Loop = record lp { cap = write_all lp.cap t.during } in
    to_next (rw found at e) (
      QueueSteps-trans (write_all-QueueSteps lp.running lp.net.accepted (r ∷ rs) lp.cap t.during)
        (settle-QueueSteps s mid t (r ∷ rs) o up sp))

-- Taking the buffer out is no move.
attempt-QueueSteps :
    (s : Setting) (lp next : Loop) (t : Tick)
    → lp.running ≡ true
    → attempt s lp t ≡ some next
    → QueueSteps (queue_of lp) (queue_of next)
unfolding attempt flush
attempt-QueueSteps s lp next t up e =
    rw append-nil at
      (sent-QueueSteps s (record lp { cap = record lp.cap { buf = [] } }) t lp.cap.buf next up e)

on_tick-QueueSteps :
    (s : Setting) (lp next : Loop) (t : Tick)
    → lp.running ≡ true
    → on_tick s lp t ≡ some next
    → QueueSteps (queue_of lp) (queue_of next)
unfolding on_tick
on_tick-QueueSteps s lp next t up e = elim (Bool-cases (ltb 0 lp.backoff)) [
  | inl h ↦ elim (Bool-cases (ltb 0 (lp.backoff - push_interval))) [
    | inl k ↦ to_next (simp (h, k) at e) none_yet
    | inr k ↦ attempt-QueueSteps s _ next t up (simp (h, k) at e)
  ]
  | inr h ↦ attempt-QueueSteps s lp next t up (simp h at e)
]

on_done-QueueSteps :
    (s : Setting) (lp next : Loop)
    → lp.running ≡ true
    → on_done s lp ≡ some next
    → QueueSteps (queue_of lp) (queue_of next)
unfolding on_done flush stopped
on_done-QueueSteps s lp next up e =
    let (o, found, sp) = push_all-Splits s.env lp.net lp.cap.buf in
    let emptied : LineCapture = record lp.cap { buf = [] } in
    let delivered = rw append-nil at (deliver-QueueSteps lp lp.cap.buf o emptied up sp) in
    to_next (rw found at e) (and_then delivered (close up))

step-QueueSteps :
    (s : Setting) (lp : Loop) (e : Event) (next : Loop)
    → step s lp e ≡ some next
    → QueueSteps (queue_of lp) (queue_of next)
unfolding step
step-QueueSteps s lp (line p) next f =
    to_next f (write-QueueSteps lp.running lp.net.accepted [] lp.cap p)
step-QueueSteps s lp (tick t) next f = elim (Bool-cases lp.running) [
  | inl up ↦ on_tick-QueueSteps s lp next t up (simp up at f)
  | inr down ↦ to_next (simp down at f) none_yet
]
step-QueueSteps s lp shutdown next f = elim (Bool-cases lp.running) [
  | inl up ↦ on_done-QueueSteps s lp next up (simp up at f)
  | inr down ↦ to_next (simp down at f) none_yet
]

from_state :
    (s : Setting) (lp : Loop) (es : List Event) (final : Loop)
    → run s lp es ≡ some final
    → QueueSteps (queue_of lp) (queue_of final)
unfolding run
from_state s lp [] final f = to_next f none_yet
from_state s lp (e ∷ es) final f = elim (Option-cases (step s lp e)) [
  | inl missing ↦ absurd (ground arith)
  | inr (next, found) ↦
      QueueSteps-trans (step-QueueSteps s lp e next found)
        (from_state s next es final (rw found at f))
]

-- Every state that the loop reaches, whatever is written and however the network answers, is one
-- that moves of the queue reach: a JSON line that is written is offered, SPAM is delivered lines
-- from the front only, a line is lost only above the capacity, and the shutdown closes the queue.
pub run-QueueSteps :
    (s : Setting) (es : List Event) (lp : Loop)
    → run s start es ≡ some lp
    → QueueSteps empty (queue_of lp)
unfolding start json_lines
run-QueueSteps s es lp f = from_state s start es lp f

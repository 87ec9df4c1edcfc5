-- ===== src/Push/Backoff.antt =====
-- NextBackoff, and the delay that PushLoop in fact makes of it.
use native.Mathlib.Nat.{pow-suc}
use scam.Base.{
  ℕ, zero, suc, ◌*◌, ◌^◌, ◌<◌, ◌≡◌, refl, sym, ap, ◌∙◌, ◌⊎◌, inl, inr, Option, some, List, [], ◌∷◌,
  arith, min, Text, nat_eq, Bool-cases, Option-cases,
}
use scam.Push.{Outcome, next_backoff, push_interval, max_backoff, push_all}
use scam.Push.Loop.{
  Loop, Tick, Event, line, tick, shutdown, Setting, start, write_all, reconcile, settle, sent,
  attempt, on_tick, on_done, stopped, step, run,
}

-- The backoff after a number of failures, each computed from the one before.
pub after_failures : ℕ → ℕ
after_failures zero = 0
after_failures (suc n) = next_backoff (after_failures n)

next_backoff-min : (b : ℕ) → 0 < b → next_backoff (min max_backoff b) ≡ min max_backoff (b * 2)
unfolding next_backoff
next_backoff-min b h = ground arith

interval-pos : (n : ℕ) → 0 < push_interval * 2 ^ n
interval-pos zero = omega arith
interval-pos (suc n) = omega (arith, interval-pos n, pow-suc 2 n)

-- Iterated from zero, NextBackoff doubles from push_interval on, up to max_backoff.
pub after_failures-eq : (n : ℕ) → after_failures (suc n) ≡ min max_backoff (push_interval * 2 ^ n)
unfolding after_failures next_backoff
after_failures-eq zero = refl
after_failures-eq (suc n) =
    ap next_backoff (after_failures-eq n)
    ∙ next_backoff-min (push_interval * 2 ^ n) (interval-pos n)
    ∙ ap (min max_backoff) (omega (arith, pow-suc 2 n))

-- The loop variable is 0 or one interval.
abbrev pub IsShort : Loop → Type 0
IsShort lp = (lp.backoff ≡ 0) ⊎ (lp.backoff ≡ push_interval)

abbrev Stays : Option Loop → Type 0
Stays r = (lp : Loop) → r ≡ some lp → IsShort lp

settle-IsShort :
    (s : Setting) (lp : Loop) (t : Tick) (rs : List Text) (o : Outcome)
    → lp.backoff ≡ 0
    → IsShort (settle s lp t rs o)
unfolding settle reconcile next_backoff
settle-IsShort s lp t rs o e = ground arith

sent-IsShort :
    (s : Setting) (lp : Loop) (t : Tick) (rs : List Text) → lp.backoff ≡ 0 → Stays (sent s lp t rs)
unfolding sent
sent-IsShort s lp t [] e next found = ground arith
sent-IsShort s lp t (r ∷ rs) e next found = elim (Option-cases (push_all s.env lp.net (r ∷ rs))) [
  | inl missing ↦ ground arith
  | inr (o, ok) ↦
      ground
        (arith, settle-IsShort s (record lp { cap = write_all lp.cap t.during }) t (r ∷ rs) o e)
]

attempt-IsShort : (s : Setting) (lp : Loop) (t : Tick) → lp.backoff ≡ 0 → Stays (attempt s lp t)
unfolding attempt
attempt-IsShort s lp t e = sent-IsShort s _ t _ e

-- One interval has always passed by the next tick.
on_tick-attempt :
    (s : Setting) (lp : Loop) (t : Tick)
    → IsShort lp
    → on_tick s lp t ≡ attempt s (record lp { backoff = 0 }) t
unfolding on_tick
on_tick-attempt s lp t h = ground arith

step-IsShort : (s : Setting) (lp : Loop) (e : Event) → IsShort lp → Stays (step s lp e)
unfolding step on_done stopped
step-IsShort s lp (line p) h next found = ground arith
step-IsShort s lp (tick t) h next found = elim (Bool-cases lp.running) [
  | inl e ↦
      attempt-IsShort s (record lp { backoff = 0 }) t refl next
        (sym (on_tick-attempt s lp t h) ∙ (simp e at found))
  | inr e ↦ ground arith
]
step-IsShort s lp shutdown h next found = ground arith

run-IsShort : (s : Setting) (lp : Loop) (es : List Event) → IsShort lp → Stays (run s lp es)
unfolding run
run-IsShort s lp [] h next found = ground arith
run-IsShort s lp (e ∷ es) h next found = elim (Option-cases (step s lp e)) [
  | inl missing ↦ ground arith
  | inr (mid, ok) ↦ run-IsShort s mid es (step-IsShort s lp e h mid ok) next (rw (ok, run) at found)
]

-- After any sequence of events, a tick of the ticker goes straight to the next attempt to push: the
-- backoff that a failure has set never makes it wait, however many failures there were in a row.
pub run-attempt :
    (s : Setting) (es : List Event) (lp : Loop) (t : Tick)
    → run s start es ≡ some lp
    → on_tick s lp t ≡ attempt s (record lp { backoff = 0 }) t
unfolding start
run-attempt s es lp t found = on_tick-attempt s lp t (run-IsShort s start es (inl refl) lp found)

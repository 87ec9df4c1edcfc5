-- ===== src/Heartbeat/Messages.antt =====
-- What HeartbeatLoop logs over a run: an alert for each outage, reminders an hour apart, one line
-- on recovery, and one line for the first success.
use scam.Base.{
  ℕ, suc, ◌+◌, ◌-◌, ◌<◌, ◌≤◌, ◌≡◌, refl, none, some, List, [], ◌∷◌, ◌++◌, arith, All, if◌then◌else◌,
  Option-cases, inl, inr, ltb, ap, ◌∙◌, ◌≢◌,
}
use scam.Heartbeat.{
  Message, unable_to_contact, restored, ok, send_heartbeat, Beating, Beat, first, on_failure,
  on_success, beat, beats, heartbeat_reminder_after,
}

abbrev pub alerts : List Message → ℕ
alerts [] = 0
alerts (unable_to_contact e n ∷ ms) = suc (alerts ms)
alerts (_ ∷ ms) = alerts ms

abbrev pub recoveries : List Message → ℕ
recoveries [] = 0
recoveries (restored n ∷ ms) = suc (recoveries ms)
recoveries (_ ∷ ms) = recoveries ms

abbrev pub oks : List Message → ℕ
oks [] = 0
oks (ok n ∷ ms) = suc (oks ms)
oks (_ ∷ ms) = oks ms

-- The failures at the end of a run.
abbrev pub streak : ℕ → List Beat → ℕ
streak n [] = n
streak n (t ∷ ts) = elim (send_heartbeat t.answer) [
  | none ↦ streak 0 ts
  | some e ↦ streak (n + 1) ts
]

streak-cons :
    (n : ℕ) (t : Beat) (ts : List Beat) → streak (streak n (t ∷ [])) ts ≡ streak n (t ∷ ts)
streak-cons n t ts = elim (Option-cases (send_heartbeat t.answer)) [
  | inl e ↦ rw (e, streak)
  | inr (err, e) ↦ rw (e, streak)
]

abbrev pending : Beating → ℕ
pending b = if ltb 0 b.consecutive_failures then 1 else 0

abbrev fresh : Beating → ℕ
fresh b = if b.first_tick then 1 else 0

-- What one beat logs against what it changes.
record Balance (b b' : Beating) (ms : List Message) : Type 0 where
  outages : recoveries ms + pending b' ≤ alerts ms + pending b
  greeting : oks ms + fresh b' ≤ fresh b

beat-Balance :
    (interval : ℕ) (b : Beating) (t : Beat) → Balance b (beat interval b t).0 (beat interval b t).1
unfolding beat on_failure on_success
beat-Balance interval b t = record { outages = ground arith; greeting = ground arith }

recoveries-append : (ms ns : List Message) → recoveries (ms ++ ns) ≡ recoveries ms + recoveries ns
recoveries-append [] ns = omega arith
recoveries-append (restored n ∷ ms) ns = omega (arith, recoveries-append ms ns)
recoveries-append (_ ∷ ms) ns = recoveries-append ms ns

alerts-append : (ms ns : List Message) → alerts (ms ++ ns) ≡ alerts ms + alerts ns
alerts-append [] ns = omega arith
alerts-append (unable_to_contact e n ∷ ms) ns = omega (arith, alerts-append ms ns)
alerts-append (_ ∷ ms) ns = alerts-append ms ns

oks-append : (ms ns : List Message) → oks (ms ++ ns) ≡ oks ms + oks ns
oks-append [] ns = omega arith
oks-append (ok n ∷ ms) ns = omega (arith, oks-append ms ns)
oks-append (_ ∷ ms) ns = oks-append ms ns

beats-Balance :
    (interval : ℕ) (b : Beating) (ts : List Beat)
    → Balance b (beats interval b ts).0 (beats interval b ts).1
unfolding beats
beats-Balance interval b [] = record { outages = omega arith; greeting = omega arith }
beats-Balance interval b (t ∷ ts) =
    let (b', ms) = beat interval b t in
    let (b'', ms') = beats interval b' ts in
    let h = beat-Balance interval b t in
    let k = beats-Balance interval b' ts in
    record {
      outages = omega (arith, h.outages, k.outages, recoveries-append ms ms', alerts-append ms ms');
      greeting = omega (arith, h.greeting, k.greeting, oks-append ms ms');
    }

beat-streak :
    (interval : ℕ) (b : Beating) (t : Beat)
    → (beat interval b t).0.consecutive_failures ≡ streak b.consecutive_failures (t ∷ [])
unfolding beat on_failure on_success
beat-streak interval b t = ground arith

beats-streak :
    (interval : ℕ) (b : Beating) (ts : List Beat)
    → (beats interval b ts).0.consecutive_failures ≡ streak b.consecutive_failures ts
unfolding beats
beats-streak interval b [] = refl
beats-streak interval b (t ∷ ts) =
    beats-streak interval (beat interval b t).0 ts
    ∙ ap (λ n. streak n ts) (beat-streak interval b t)
    ∙ streak-cons b.consecutive_failures t ts

-- From the start of the loop: every recovery that is logged has an alert of its own before it, the
-- first success is greeted at most once, and the count of consecutive failures is that of the
-- failures at the end of the run.
pub beats-first :
    (interval : ℕ) (ts : List Beat)
    → let (b, ms) = beats interval first ts in
      (recoveries ms ≤ alerts ms) × (oks ms ≤ 1) × (b.consecutive_failures ≡ streak 0 ts)
unfolding first
beats-first interval ts =
    let h = beats-Balance interval first ts in
    (omega (arith, h.outages), omega (arith, h.greeting), beats-streak interval first ts)

-- A beat that fails less than an hour after the time.
abbrev pub FailsWithinHour : ℕ → Beat → Type 0
FailsWithinHour at t = (send_heartbeat t.answer ≢ none) × (t.now - at < heartbeat_reminder_after)

quiet_beat :
    (interval : ℕ) (b : Beating) (at : ℕ) (t : Beat)
    → 0 < b.consecutive_failures
    → b.last_error_log ≡ some at
    → FailsWithinHour at t
    → let (b', ms) = beat interval b t in
      (ms ≡ []) × (0 < b'.consecutive_failures) × (b'.last_error_log ≡ some at)
unfolding beat on_failure
quiet_beat interval b at t p e h = ground arith

-- In an outage that was reported at a time, further failures within an hour of it log nothing.
pub beats-quiet :
    (interval : ℕ) (b : Beating) (at : ℕ) (ts : List Beat)
    → 0 < b.consecutive_failures
    → b.last_error_log ≡ some at
    → All (FailsWithinHour at) ts
    → (beats interval b ts).1 ≡ []
unfolding beats
beats-quiet interval b at [] p e h = refl
beats-quiet interval b at (t ∷ ts) p e h =
    let (silent, p', e') = quiet_beat interval b at t p e h.0 in
    rw silent (beats-quiet interval (beat interval b t).0 at ts p' e' h.1)

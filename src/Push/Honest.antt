-- ===== src/Push/Honest.antt =====
-- When the ids agree: what a SPAM that reports the ids it holds makes of the reconcile snapshot.
use scam.Base.{
  ℕ, ◌-◌, ◌≡◌, refl, true, false, Option, none, some, List, [], ◌∷◌, ◌++◌, arith, Text, ltb, max,
  Bool-cases, Option-cases, subst, append-nil, sym, ap, ◌∙◌, inl, inr,
}
use scam.Capture.{flush}
use scam.Push.{
  Transport, Net, Outcome, push_all, push_interval, scan_from, scan_max_event_id, higher_id,
}
use scam.Push.Batches.{Splits, push_all-Splits}
use scam.Push.Loop.{
  Loop, Tick, Event, line, tick, shutdown, Setting, start, write_all, reconcile, settle, sent,
  attempt, on_tick, stopped, on_done, step, run,
}

scan_from-max :
    (env : Transport) (m : ℕ) (rs : List Text) → scan_from env m rs ≡ max m (scan_from env 0 rs)
unfolding scan_from
scan_from-max env m [] = omega arith
scan_from-max env m (r ∷ rs) =
    let up = scan_from-max env (higher_id m (env.decode_event_id r)) rs in
    let base = scan_from-max env (higher_id 0 (env.decode_event_id r)) rs in ground arith

scan_from-append :
    (env : Transport) (m : ℕ) (rs ss : List Text)
    → scan_from env m (rs ++ ss) ≡ scan_from env (scan_from env m rs) ss
unfolding scan_from
scan_from-append env m [] ss = refl
scan_from-append env m (r ∷ rs) ss =
    scan_from-append env (higher_id m (env.decode_event_id r)) rs ss

-- The highest id of two lists is the larger of theirs.
scan_max-append :
    (env : Transport) (rs ss : List Text)
    → scan_max_event_id env (rs ++ ss) ≡ max (scan_max_event_id env rs) (scan_max_event_id env ss)
unfolding scan_max_event_id
scan_max-append env rs ss = scan_from-append env 0 rs ss ∙ scan_from-max env (scan_from env 0 rs) ss

-- A flush that SPAM accepts as a whole, and answers with the highest id of all that it holds, or
-- of which it accepts nothing.
abbrev pub Honest : Transport → Net → Outcome → Type 0
Honest env net o =
    (o.ok ≡ true → o.last_seen ≡ scan_max_event_id env o.net.accepted)
    × (o.ok ≡ false → o.net.accepted ≡ net.accepted)

abbrev HonestFlush : Transport → Net → Option Outcome → Type 0
HonestFlush env net none = Unit
HonestFlush env net (some o) = Honest env net o

abbrev HonestEvent : Setting → Loop → Event → Type 0
HonestEvent s lp (line p) = Unit
HonestEvent s lp (tick t) = HonestFlush s.env lp.net (push_all s.env lp.net lp.cap.buf)
HonestEvent s lp shutdown = Unit

-- Of a state, if there is one.
abbrev pub At : (Loop → Type 0) → Option Loop → Type 0
At holds none = Unit
At holds (some lp) = holds lp

-- SPAM is honest at every tick of the run.
unfoldable pub HonestRun : Setting → Loop → List Event → Type 0
HonestRun s lp [] = Unit
HonestRun s lp (e ∷ es) = HonestEvent s lp e × At (λ next. HonestRun s next es) (step s lp e)

-- No snapshot was taken, and while the loop runs it knows the highest id that SPAM holds.
pub record Agrees (s : Setting) (lp : Loop) : Type 0 where
  pub no_snapshot : lp.last_snapshot_at ≡ none
  pub pushed : lp.running ≡ true → lp.last_pushed ≡ scan_max_event_id s.env lp.net.accepted

accepted_all :
    {net : Net} {records : List Text} {o : Outcome}
    → Splits net records o
    → o.ok ≡ true
    → o.net.accepted ≡ net.accepted ++ records
accepted_all {net} {records} sp e = elim sp.result [
  | inl (_, none_left) ↦
      sp.accepted ∙ ap (◌++◌ net.accepted) (sym (append-nil sp.sent) ∙ rw (← none_left) sp.whole)
  | inr (failed, _) ↦ absurd cc
]

settle-Agrees :
    (s : Setting) (lp : Loop) (t : Tick) (records : List Text) (o : Outcome)
    → Splits lp.net records o
    → Honest s.env lp.net o
    → lp.last_snapshot_at ≡ none
    → lp.last_pushed ≡ scan_max_event_id s.env lp.net.accepted
    → Agrees s (settle s lp t records o)
unfolding settle reconcile
settle-Agrees s lp t records o sp h none_yet known = elim (Bool-cases o.ok) [
  | inl e ↦
      let all = scan_max-append s.env lp.net.accepted records in
      let same = accepted_all sp e in
      let seen = h.0 e in record { no_snapshot = ground arith; pushed = λ up. ground arith }
  | inr e ↦ let same = h.1 e in record { no_snapshot = ground arith; pushed = λ up. ground arith }
]

start-Agrees : (s : Setting) → Agrees s start
unfolding start scan_max_event_id scan_from
start-Agrees s = record { no_snapshot = refl; pushed = λ up. refl }

module _ (s : Setting) where
  same_state : {lp next : Loop} → some lp ≡ some next → Agrees s lp → Agrees s next
  same_state e v = subst (At (Agrees s)) e v

  sent-Agrees :
      (lp : Loop) (t : Tick) (records : List Text) (next : Loop)
      → HonestFlush s.env lp.net (push_all s.env lp.net records)
      → lp.last_snapshot_at ≡ none
      → lp.last_pushed ≡ scan_max_event_id s.env lp.net.accepted
      → sent s lp t records ≡ some next
      → Agrees s next
  unfolding sent
  sent-Agrees lp t [] next h none_yet known e =
      same_state e (record { no_snapshot = none_yet; pushed = λ _. known })
  sent-Agrees lp t (r ∷ rs) next h none_yet known e =
      let (o, found, sp) = push_all-Splits s.env lp.net (r ∷ rs) in
      let mid : Loop = record lp { cap = write_all lp.cap t.during } in
      let honest : Honest s.env lp.net o = subst (HonestFlush s.env lp.net) found h in
      same_state (rw found at e) (settle-Agrees s mid t (r ∷ rs) o sp honest none_yet known)

  on_tick-Agrees :
      (lp : Loop) (t : Tick) (next : Loop)
      → HonestEvent s lp (tick t)
      → lp.running ≡ true
      → Agrees s lp
      → on_tick s lp t ≡ some next
      → Agrees s next
  unfolding on_tick attempt flush
  on_tick-Agrees lp t next h up v e = elim (Bool-cases (ltb 0 lp.backoff)) [
    | inl waits ↦ elim (Bool-cases (ltb 0 (lp.backoff - push_interval))) [
      | inl still ↦
          same_state (simp (waits, still) at e)
            (record { no_snapshot = v.no_snapshot; pushed = v.pushed })
      | inr over ↦
          sent-Agrees _ t lp.cap.buf next h v.no_snapshot (v.pushed up) (simp (waits, over) at e)
    ]
    | inr ready ↦ sent-Agrees _ t lp.cap.buf next h v.no_snapshot (v.pushed up) (simp ready at e)
  ]

  on_done-Agrees : (lp next : Loop) → Agrees s lp → on_done s lp ≡ some next → Agrees s next
  unfolding on_done flush stopped
  on_done-Agrees lp next v e = elim (Option-cases (push_all s.env lp.net lp.cap.buf)) [
    | inl missing ↦ absurd (ground arith)
    | inr (o, ok) ↦
        let none_yet = v.no_snapshot in
        record { no_snapshot = ground arith; pushed = λ up. absurd (ground arith) }
  ]

  step-Agrees :
      (lp : Loop) (e : Event) (next : Loop)
      → HonestEvent s lp e
      → Agrees s lp
      → step s lp e ≡ some next
      → Agrees s next
  unfolding step
  step-Agrees lp (line p) next h v f =
      same_state f (record { no_snapshot = v.no_snapshot; pushed = v.pushed })
  step-Agrees lp (tick t) next h v f = elim (Bool-cases lp.running) [
    | inl up ↦ on_tick-Agrees lp t next h up v (simp up at f)
    | inr down ↦ same_state (simp down at f) v
  ]
  step-Agrees lp shutdown next h v f = elim (Bool-cases lp.running) [
    | inl up ↦ on_done-Agrees lp next v (simp up at f)
    | inr down ↦ same_state (simp down at f) v
  ]

  run-Agrees :
      (lp : Loop) (es : List Event) (final : Loop)
      → HonestRun s lp es
      → Agrees s lp
      → run s lp es ≡ some final
      → Agrees s final
  unfolding HonestRun run
  run-Agrees lp [] final h v f = same_state f v
  run-Agrees lp (e ∷ es) final (now, later) v f = elim (Option-cases (step s lp e)) [
    | inl missing ↦ absurd (ground arith)
    | inr (next, found) ↦
        run-Agrees next es final (subst (At (λ r. HonestRun s r es)) found later)
          (step-Agrees lp e next now v found) (rw found at f)
  ]

-- Where SPAM answers each flush that it accepts with the highest event id of all that it holds,
-- and accepts a flush as a whole or not at all, no reconcile snapshot is ever taken for a mismatch:
-- while the loop runs, `last_pushed` is the highest event id of all that SPAM accepted.
pub run-agrees :
    (s : Setting) (es : List Event) (lp : Loop)
    → HonestRun s start es
    → run s start es ≡ some lp
    → (lp.last_snapshot_at ≡ none)
      × (lp.running ≡ true → lp.last_pushed ≡ scan_max_event_id s.env lp.net.accepted)
run-agrees s es lp h found =
    let v = run-Agrees s start es lp h (start-Agrees s) found in (v.no_snapshot, v.pushed)

-- ===== src/Snapshot/Loop.antt =====
-- SnapshotLoop, up to the end of its context: the timer's firings are a list.
use scam.Base.{
  ℕ, inl, inr, Option, none, some, text_beq, List, [], ◌∷◌, Text, codes, if◌then◌else◌, Bool-cases,
}
use scam.Base.Duration.{minute, signed_ltb, signed_leb}
use scam.Capture.Trim.{trim_space}
use scam.Dynamic.{Nested}
use scam.Emit.{Attrs, Log, plain, number, report, put}
use scam.Emit.Ids.{Extends, Extends-refl, Extends-trans, put-Extends}
use scam.Pod.Owner.{ReplicaSets}
use scam.Interval.{is_off, parsed, resolve_interval, resolve_snapshot_interval}
use scam.Snapshot.{SnapshotResources, emit_full_snapshot}
use scam.Snapshot.Envelope.{emit_full_snapshot-Extends}

-- What the informers hold when the timer fires, and the identifier that is made then.
pub record Fire : Type 0 where
  pub sets : ReplicaSets
  pub resources : SnapshotResources
  pub id : Text

-- `jitter` is rand.Int64N of the interval.
unfoldable pub first_delay : (interval jitter : ℕ) → ℕ
first_delay interval jitter = if signed_ltb minute interval then jitter else interval

unfoldable pub fire_all : Nested → List Fire → Log → Log
fire_all lib [] l = l
fire_all lib (f ∷ fs) l =
    fire_all lib fs (emit_full_snapshot lib f.sets f.resources f.id (codes "reconcile") l)

abbrev pub scheduled : Nested → ℕ × Log → (ℕ → ℕ) → List Fire → Log
scheduled lib (interval, l) jitter fires =
    if signed_leb interval 0
    then report (codes "snapshot: disabled") [] l
    else fire_all lib fires (
        report (codes "snapshot: scheduled")
          ((codes "interval", number interval)
            ∷ (codes "first_delay", number (first_delay interval (jitter interval)))
            ∷ [])
          l)

-- `env` is SNAPSHOT_INTERVAL, `parse` is time.ParseDuration.
unfoldable pub snapshot_loop :
    Nested → (parse : Text → Option ℕ) → (env : Text) → (jitter : ℕ → ℕ) → List Fire → Log → Log
snapshot_loop lib parse env jitter fires l =
    scheduled lib (resolve_snapshot_interval parse env l) jitter fires

report-Extends : (message : Text) (attrs : Attrs) (l : Log) → Extends l (report message attrs l)
unfolding put
report-Extends message attrs l = put-Extends (plain message attrs) l

fire_all-Extends : (lib : Nested) (fs : List Fire) (l : Log) → Extends l (fire_all lib fs l)
unfolding fire_all
fire_all-Extends lib [] l = Extends-refl l
fire_all-Extends lib (f ∷ fs) l =
    Extends-trans (emit_full_snapshot-Extends lib f.sets f.resources f.id (codes "reconcile") l)
      (fire_all-Extends lib fs _)

invalid-Extends :
    (message raw : Text) (def : ℕ) (o : Option ℕ) (l : Log)
    → Extends l (parsed message raw def o l).1
invalid-Extends message raw def none l = report-Extends message _ l
invalid-Extends message raw def (some d) l = elim (Bool-cases (signed_ltb d minute)) [
  | inl e ↦ rw e (report-Extends message _ l)
  | inr e ↦ rw e (Extends-refl l)
]

interval-Extends :
    (parse : Text → Option ℕ) (env : Text) (l : Log)
    → Extends l (resolve_snapshot_interval parse env l).1
unfolding resolve_snapshot_interval resolve_interval
interval-Extends parse env l = elim (Bool-cases (text_beq (trim_space env) [])) [
  | inl e ↦ rw e (Extends-refl l)
  | inr e ↦ elim (Bool-cases (is_off (trim_space env))) [
    | inl f ↦ rw (e, f) (Extends-refl l)
    | inr f ↦ rw (e, f) (invalid-Extends _ (trim_space env) _ (parse (trim_space env)) l)
  ]
]

scheduled-Extends :
    (lib : Nested) (interval : ℕ) (l : Log) (jitter : ℕ → ℕ) (fires : List Fire)
    → Extends l (scheduled lib (interval, l) jitter fires)
scheduled-Extends lib interval l jitter fires = elim (Bool-cases (signed_leb interval 0)) [
  | inl e ↦ rw e (report-Extends _ _ l)
  | inr e ↦ rw e (Extends-trans (report-Extends _ _ l) (fire_all-Extends lib fires _))
]

-- However often the timer fires and whatever the informers hold then: what was logged stays in place,
-- and the records of all these snapshots take consecutive event ids.
pub snapshot_loop-Extends :
    (lib : Nested) (parse : Text → Option ℕ) (env : Text) (jitter : ℕ → ℕ) (fires : List Fire)
    (l : Log)
    → Extends l (snapshot_loop lib parse env jitter fires l)
unfolding snapshot_loop
snapshot_loop-Extends lib parse env jitter fires l =
    let r = resolve_snapshot_interval parse env l in
    Extends-trans (interval-Extends parse env l) (scheduled-Extends lib r.0 r.1 jitter fires)

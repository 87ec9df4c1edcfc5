-- ===== src/Heartbeat.antt =====
-- The heartbeats of internal/collector/push.go: `resolveHeartbeatInterval`, `HeartbeatLoop`,
-- `sendHeartbeat` and `nextHeartbeatBackoff`. Durations are int64 patterns, times nanoseconds.
pub mod Backoff
pub mod Messages
mod Tests
use scam.Base.{
  ℕ, zero, suc, ◌+◌, ◌-◌, Bool, true, false, ◌||◌, Option, none, some, List, [], ◌∷◌, ◌++◌, Text,
  leb, ltb, if◌then◌else◌, nat_eq, text_eq, ◌==◌,
}
use scam.Base.Duration.{minute, hour, double, signed_leb}
use scam.Capture.Trim.{trim_space}

abbrev pub default_heartbeat_interval : ℕ
default_heartbeat_interval = 300000000000

abbrev pub max_heartbeat_backoff : ℕ
max_heartbeat_backoff = 900000000000

abbrev pub heartbeat_reminder_after : ℕ
heartbeat_reminder_after = hour

-- What sendHeartbeat met: no request could be built, no answer came, or one with a status.
pub data Answer : Type 0 where
  no_request no_answer : Text → Answer
  status : ℕ → Answer

pub data SendError : Type 0 where
  failed : Text → SendError
  unexpected_status : ℕ → SendError

unfoldable pub send_heartbeat : Answer → Option SendError
send_heartbeat (no_request err) = some (failed err)
send_heartbeat (no_answer err) = some (failed err)
send_heartbeat (status n) = if ltb n 200 || leb 300 n then some (unexpected_status n) else none

-- The records that the loop logs.
pub data Message : Type 0 where
  invalid_interval : Text → Message
  empty_cluster_id : Message
  marshal_failed : Message
  unable_to_contact : SendError → ℕ → Message
  restored : ℕ → Message
  ok : ℕ → Message

-- `raw` is HEARTBEAT_INTERVAL, `parse` is time.ParseDuration.
interval_of : Text → Option ℕ → ℕ × List Message
interval_of raw none = (default_heartbeat_interval, invalid_interval raw ∷ [])
interval_of raw (some d) =
    if signed_leb d 0 then (default_heartbeat_interval, invalid_interval raw ∷ []) else (d, [])

unfoldable pub resolve_heartbeat_interval : (Text → Option ℕ) → Text → ℕ × List Message
unfolding interval_of
resolve_heartbeat_interval parse env =
    let raw = trim_space env in
    if raw == [] then (default_heartbeat_interval, []) else interval_of raw (parse raw)

-- The loop of nextHeartbeatBackoff, by the rounds left.
unfoldable pub doubled : ℕ → ℕ → ℕ
doubled zero d = d
doubled (suc rounds) d =
    let rest = doubled rounds (double d) in
    if signed_leb max_heartbeat_backoff (double d) then max_heartbeat_backoff else rest

unfoldable pub next_heartbeat_backoff : ℕ → ℕ → ℕ
unfolding doubled
next_heartbeat_backoff base consecutive_failures = doubled (consecutive_failures - 1) base

-- The variables of HeartbeatLoop, and the delay to which the timer was last set.
pub record Beating : Type 0 where
  pub consecutive_failures : ℕ
  pub last_error_log : Option ℕ
  pub first_tick : Bool
  pub delay : ℕ

unfoldable pub first : Beating
first = record { consecutive_failures = 0; last_error_log = none; first_tick = true; delay = 0 }

-- One firing of the timer: when the error test is made, when its time is kept, and the answer.
pub record Beat : Type 0 where
  pub now : ℕ
  pub logged_at : ℕ
  pub answer : Answer

-- time.Since(lastErrorLog) >= heartbeatReminderAfter.
abbrev pub reminder_due : Option ℕ → ℕ → Bool
reminder_due none now = true
reminder_due (some at) now = leb heartbeat_reminder_after (now - at)

unfoldable pub on_failure : ℕ → Beating → Beat → SendError → Beating × List Message
on_failure interval b t err =
    let n = b.consecutive_failures + 1 in
    let loud = n == 1 || reminder_due b.last_error_log t.now in
    (
      record {
        consecutive_failures = n;
        last_error_log = if loud then some t.logged_at else b.last_error_log;
        first_tick = false;
        delay = next_heartbeat_backoff interval n;
      },
      if loud then unable_to_contact err n ∷ [] else [],
    )

unfoldable pub on_success : ℕ → Beating → Beating × List Message
on_success interval b =
    if ltb 0 b.consecutive_failures
    then (
      record b { consecutive_failures = 0; last_error_log = none; delay = interval },
      restored b.consecutive_failures ∷ [],
    )
    else if b.first_tick
    then (record b { first_tick = false; delay = interval }, ok interval ∷ [])
    else (record b { delay = interval }, [])

unfoldable pub beat : ℕ → Beating → Beat → Beating × List Message
beat interval b t = elim (send_heartbeat t.answer) [
  | none ↦ on_success interval b
  | some err ↦ on_failure interval b t err
]

unfoldable pub beats : ℕ → Beating → List Beat → Beating × List Message
beats interval b [] = (b, [])
beats interval b (t ∷ ts) =
    let (b', ms) = beat interval b t in let (b'', ms') = beats interval b' ts in (b'', ms ++ ms')

-- The loop until its context ends, from the environment, `body` being the marshalled request.
unfoldable pub heartbeat_loop :
    (Text → Option ℕ) → Text → Text → Option Text → List Beat → List Message
unfolding beats beat first resolve_heartbeat_interval
heartbeat_loop parse env cluster_id body ts =
    if cluster_id == [] then empty_cluster_id ∷ [] else elim body [
      | none ↦ marshal_failed ∷ []
      | some _ ↦
          let (interval, ms) = resolve_heartbeat_interval parse env in
          let (b, ms') = beats interval first ts in ms ++ ms'
    ]

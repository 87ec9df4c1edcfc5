-- ===== src/Heartbeat/Tests.antt =====
-- A run of the heartbeat loop, and the theorems at it.
use scam.Base.{ℕ, ◌+◌, ◌*◌, ◌^◌, ◌≤◌, ◌≡◌, refl, min, some, false, List, [], ◌∷◌, arith, codes}
use scam.Base.Duration.{minute, hour}
use scam.Capture.Trim.{trim_space}
use scam.Heartbeat.{
  unable_to_contact, restored, unexpected_status, status, Beating, Beat, first, send_heartbeat,
  on_failure, on_success, beat, beats, heartbeat_loop, max_heartbeat_backoff,
  next_heartbeat_backoff, resolve_heartbeat_interval,
}
use scam.Heartbeat.Backoff.{next_heartbeat_backoff-eq}
use scam.Heartbeat.Messages.{alerts, recoveries, oks, streak, beats-first, beats-quiet}

abbrev beat_at : ℕ → ℕ → Beat
beat_at n code = record { now = n; logged_at = n; answer = status code }

abbrev outage : List Beat
outage =
    beat_at minute 500
    ∷ beat_at (2 * minute) 404
    ∷ beat_at (2 * hour) 503
    ∷ beat_at (3 * hour) 200
    ∷ []

heartbeat_test :
    heartbeat_loop (λ s. some minute) (codes " 1m ") (codes "c1") (some []) outage
    ≡ unable_to_contact (unexpected_status 500) 1
      ∷ unable_to_contact (unexpected_status 503) 3
      ∷ restored 3
      ∷ []
unfolding heartbeat_loop beats beat send_heartbeat on_failure on_success first
    next_heartbeat_backoff resolve_heartbeat_interval trim_space
heartbeat_test = refl

next_heartbeat_backoff-eq_example :
    (next_heartbeat_backoff hour 1 ≡ hour)
    × (next_heartbeat_backoff hour (0 + 2) ≡ min max_heartbeat_backoff (hour * 2 ^ (0 + 1)))
next_heartbeat_backoff-eq_example = next_heartbeat_backoff-eq hour 0 (omega arith)

beats-first_example :
    let (b, ms) = beats minute first outage in
    (recoveries ms ≤ alerts ms) × (oks ms ≤ 1) × (b.consecutive_failures ≡ streak 0 outage)
beats-first_example = beats-first minute outage

abbrev failing : Beating
failing = record {
  consecutive_failures = 1;
  last_error_log = some minute;
  first_tick = false;
  delay = minute;
}

beats-quiet_example : (beats minute failing (beat_at (2 * minute) 404 ∷ [])).1 ≡ []
unfolding send_heartbeat
beats-quiet_example =
    beats-quiet minute failing minute (beat_at (2 * minute) 404 ∷ []) (omega arith) refl
      (ground arith)

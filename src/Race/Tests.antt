-- ===== src/Race/Tests.antt =====
-- Two goroutines, the second of which writes first, and the theorems at them.
use mathlib.Core.List.{Perm}
use scam.Base.{ℕ, ◌≡◌, refl, none, some, true, List, [], ◌∷◌, arith, codes}
use scam.Capture.{write, flush, rebuffer}
use scam.Capture.Trim.{trim_space}
use scam.Push.{
  push, push_batches, push_all, next_batch, answered, posted, scan_from, scan_max_event_id,
  next_backoff,
}
use scam.Push.Loop.{
  Loop, Event, line, tick, start, write_all, reconcile, settle, sent, attempt, on_tick, on_done,
  stopped, step, run,
}
use scam.Emit.{Record}
use scam.Race.{Racing, Step, Reach, take, init, later}
use scam.Race.Ids.{down_from, Reach-ids}
use scam.Race.Sample.{encode, read_id, encode-IsEncoder, setting}
use scam.Race.Stream.{run-ids}

abbrev event : ℕ → Record
event id = record { message = codes "ADD"; kind = codes "Service"; event_id = some id; attrs = [] }

-- The first id was taken before the second one, whose record is written.
abbrev racing : Racing
racing = record { taken = 2; next_event_id = 2; held = event 1 ∷ []; records = event 2 ∷ [] }

racing_reached : Reach racing
racing_reached =
    later
      (later (later init (take (codes "ADD") (codes "Service") []))
        (take (codes "ADD") (codes "Service") []))
      (Step.write [] (event 2) (event 1 ∷ []) refl)

Reach-ids_example : Perm (2 ∷ 1 ∷ []) (down_from 2)
Reach-ids_example = Reach-ids racing racing_reached (omega arith)

abbrev events : List Event
events =
    line (encode (event 2))
    ∷ tick (record { now = 40; during = []; snapshot = []; done_at = 40 })
    ∷ []

abbrev pushed : Loop
pushed = record {
  running = true;
  backoff = 0;
  last_pushed = 2;
  last_snapshot_at = none;
  cap = record { stdout = encode (event 2) ∷ []; buf = [] };
  net = record { calls = 1; accepted = encode (event 2) ∷ []; local_log = [] };
}

pushed_test : run setting start events ≡ some pushed
unfolding start run step on_tick attempt sent settle reconcile write_all on_done stopped flush write
    rebuffer push_all push_batches next_batch push posted answered scan_max_event_id scan_from
    next_backoff trim_space
pushed_test = refl

run-ids_example : Perm (2 ∷ 1 ∷ []) (down_from 2)
run-ids_example =
    run-ids encode read_id racing setting events pushed encode-IsEncoder racing_reached
      (omega arith) pushed_test refl refl (omega arith)

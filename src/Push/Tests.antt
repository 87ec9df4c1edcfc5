-- ===== src/Push/Tests.antt =====
-- Runs of the push loop, and the theorems at them.
use scam.Base.{
  ℕ, Text, ◌≡◌, ◌≤◌, ◌+◌, ◌⊎◌, refl, true, false, none, some, List, [], ◌∷◌, ◌++◌, arith, codes,
  length, nat_eq, ◌==◌,
}
use scam.Capture.{write, flush, rebuffer}
use scam.Capture.Trim.{trim_space}
use scam.Push.{
  Transport, Reply, Net, Outcome, push, push_batches, push_all, next_batch, answered, posted,
  scan_from, scan_max_event_id, next_backoff, push_interval,
}
use scam.Push.Loop.{
  Loop, Tick, Event, line, tick, Setting, start, write_all, reconcile, settle, sent, attempt,
  on_tick, on_done, stopped, step, run,
}
use scam.Push.Batches.{Splits, push_all-Splits}
use scam.Push.Backoff.{run-attempt}
use scam.Push.Delivery.{run-Keeps, run-whole}
use scam.Push.History.{Keeps, json_lines}
use scam.Push.Requests.{run-requests}
use scam.Push.Recovery.{IsUp, run-recovers}
use scam.Push.Queue.{QueueSteps, empty}
use scam.Push.Refines.{queue_of, run-QueueSteps}
use scam.Push.Honest.{HonestRun, run-agrees}

-- All that a run computes with.
push_run : Unit {0}
unfolding start run step on_tick attempt sent settle reconcile write_all on_done stopped flush write
    rebuffer push_all push_batches next_batch push posted answered scan_max_event_id scan_from
    next_backoff trim_space
push_run = tt

-- The first request finds nobody, later ones are answered. SPAM says that it has seen 9.
abbrev flaky : Transport
flaky = record {
  marshal = λ rs. some [];
  can_build = true;
  post =
      λ n body. elim (n == 0) [ true ↦ none | false ↦ some (record { status = 200; body = [] }) ];
  decode_ack = λ body. 9;
  decode_event_id = λ r. some (length r);
}

abbrev setting : Setting
setting = record { env = flaky; has_trigger = true; mismatch_line = λ a b. codes "{\"m\":1}" }

abbrev at_time : ℕ → Tick
at_time n = record {
  now = n;
  during = codes "{\"d\":2}" ∷ [];
  snapshot = codes "{\"s\":3}" ∷ [];
  done_at = n;
}

abbrev events : List Event
events = line (codes "{\"a\":0}\n") ∷ line (codes "plain text") ∷ tick (at_time 5) ∷ []

abbrev backed_off : Loop
backed_off = record {
  running = true;
  backoff = push_interval;
  last_pushed = 0;
  last_snapshot_at = none;
  cap = record {
    stdout = codes "{\"a\":0}\n" ∷ codes "plain text" ∷ codes "{\"d\":2}" ∷ [];
    buf = codes "{\"a\":0}" ∷ codes "{\"d\":2}" ∷ [];
  };
  net = record {
    calls = 1;
    accepted = [];
    local_log = codes "push: post" ∷ codes "push failed, backing off" ∷ [];
  };
}

run_test : run setting start events ≡ some backed_off
unfolding push_run
run_test = refl

reconciled : Loop
unfolding push_run
reconciled = elim (on_tick setting backed_off (at_time 40)) [ none ↦ start | some lp ↦ lp ]

reconciled_test : on_tick setting backed_off (at_time 40) ≡ some reconciled
unfolding reconciled
reconciled_test = refl

reconciled-step : step setting backed_off (tick (at_time 40)) ≡ some reconciled
unfolding step
reconciled-step = reconciled_test

run-Keeps_example :
    (lp : Loop) × (run setting start events ≡ some lp) × Keeps lp.net.accepted lp.cap
run-Keeps_example = run-Keeps setting events

run-whole_example : [] ++ backed_off.cap.buf ≡ json_lines backed_off.cap.stdout
unfolding json_lines trim_space
run-whole_example = run-whole setting events backed_off run_test refl (omega arith)

run-attempt_example :
    on_tick setting backed_off (at_time 40)
    ≡ attempt setting (record backed_off { backoff = 0 }) (at_time 40)
run-attempt_example = run-attempt setting events backed_off (at_time 40) run_test

abbrev silent : Net
silent = record { calls = 3; accepted = []; local_log = [] }

push_all-Splits_example :
    (o : Outcome) × (push_all flaky silent (codes "{}" ∷ []) ≡ some o)
    × Splits silent (codes "{}" ∷ []) o
push_all-Splits_example = push_all-Splits flaky silent (codes "{}" ∷ [])

-- Every request is answered, and SPAM reports the id of the only records there are.
abbrev honest : Setting
honest = record {
  env = record flaky {
    post = λ n body. some (record { status = 200; body = [] });
    decode_ack = λ body. 7;
  };
  has_trigger = true;
  mismatch_line = λ a b. [];
}

abbrev delivered : Loop
delivered = record {
  running = true;
  backoff = 0;
  last_pushed = 7;
  last_snapshot_at = none;
  cap = record {
    stdout = codes "{\"a\":0}\n" ∷ codes "plain text" ∷ codes "{\"d\":2}" ∷ [];
    buf = codes "{\"d\":2}" ∷ [];
  };
  net = record { calls = 1; accepted = codes "{\"a\":0}" ∷ []; local_log = [] };
}

delivered_test : run honest start events ≡ some delivered
unfolding push_run
delivered_test = refl

honest-events : HonestRun honest start events
unfolding push_run HonestRun
honest-events = (tt, (tt, ((λ e. refl, λ e. absurd cc), tt)))

run-agrees_example :
    (delivered.last_snapshot_at ≡ none)
    × (true ≡ true → 7 ≡ scan_max_event_id honest.env (codes "{\"a\":0}" ∷ []))
run-agrees_example = run-agrees honest events delivered honest-events delivered_test

run-requests_example :
    ((true ≡ true) × (reconciled.net.calls ≤ 1 + 5))
    ⊎ ((true ≡ false) × (reconciled.net ≡ backed_off.net))
run-requests_example =
    run-requests setting events (tick (at_time 40)) backed_off reconciled run_test reconciled-step

run-QueueSteps_example : QueueSteps empty (queue_of backed_off)
run-QueueSteps_example = run-QueueSteps setting events backed_off run_test

flaky-answers :
    (k : ℕ) (body : Text) → 1 ≤ k → (r : Reply) × (flaky.post k body ≡ some r) × (r.status ≡ 200)
flaky-answers k body h =
    let away : (k == 0) ≡ false = ground arith in
    (record { status = 200; body = [] }, rw (away, flaky) refl, refl)

flaky-IsUp : IsUp flaky 1
flaky-IsUp = record { marshals = λ rs. ([], refl); builds = refl; answers = flaky-answers }

run-recovers_example :
    (next : Loop) × (step setting backed_off (tick (at_time 40)) ≡ some next)
    × (next.net.accepted ≡ json_lines backed_off.cap.stdout)
unfolding json_lines trim_space
run-recovers_example =
    run-recovers setting events backed_off (tick (at_time 40)) run_test refl (omega arith)
      flaky-IsUp tt

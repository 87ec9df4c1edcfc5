-- ===== src/Push/Loop.antt =====
-- PushLoop of internal/collector/push.go, one step for each turn of its select and for each line
-- that another goroutine writes. Times are nanoseconds.
use scam.Base.{
  ℕ, ◌-◌, ◌*◌, Bool, true, false, not, ◌&&◌, Option, none, some, List, [], ◌∷◌, Text, codes, ltb,
  leb, if◌then◌else◌, nat_eq, ◌==◌,
}
use scam.Base.Duration.{minute}
use scam.Capture.{LineCapture, Written, write, flush, rebuffer}
use scam.Push.{
  Transport, Net, Outcome, logged, push_interval, push_all, scan_max_event_id, next_backoff,
}

abbrev pub snapshot_cooldown : ℕ
snapshot_cooldown = 5 * minute

-- The loop's variables, the capture, and what the process has sent. `last_snapshot_at` has no
-- value at Go's zero time.
pub record Loop : Type 0 where
  pub running : Bool
  pub backoff : ℕ
  pub last_pushed : ℕ
  pub last_snapshot_at : Option ℕ
  pub cap : LineCapture
  pub net : Net

unfoldable pub start : Loop
start = record {
  running = true;
  backoff = 0;
  last_pushed = 0;
  last_snapshot_at = none;
  cap = record { stdout = []; buf = [] };
  net = record { calls = 0; accepted = []; local_log = [] };
}

-- A tick of the ticker: the time, the lines that others write while the push is under way, the
-- lines that a snapshot would write, and the time when it is done.
pub record Tick : Type 0 where
  pub now : ℕ
  pub during : List Text
  pub snapshot : List Text
  pub done_at : ℕ

-- A line written to the capture, a tick, and the end of the context.
pub data Event : Type 0 where
  line : Text → Event
  tick : Tick → Event
  shutdown : Event

abbrev pub wrote : Written
wrote = record { n = 0; err = none }

unfoldable pub write_all : LineCapture → List Text → LineCapture
write_all cap [] = cap
write_all cap (p ∷ ps) = write_all (write cap p wrote).0 ps

-- time.Since(at) >= snapshotCooldown; since the zero time it is 292 years.
abbrev pub cooled : Option ℕ → ℕ → Bool
cooled none now = true
cooled (some at) now = leb snapshot_cooldown (now - at)

-- What is fixed in a run: the network, whether triggerSnapshot is set, and the log line for a
-- mismatch of the ACK, from last_pushed and last_seen.
pub record Setting : Type 0 where
  pub env : Transport
  pub has_trigger : Bool
  pub mismatch_line : ℕ → ℕ → Text

abbrev pub mismatch : Setting → Loop → ℕ → ℕ → Bool
mismatch s lp last_seen now =
    s.has_trigger
    && not (last_seen == 0)
    && not (last_seen == lp.last_pushed)
    && cooled lp.last_snapshot_at now

unfoldable pub reconcile : Setting → Loop → ℕ → Tick → Loop
reconcile s lp last_seen t =
    if mismatch s lp last_seen t.now
    then record lp {
      cap = write_all lp.cap (s.mismatch_line lp.last_pushed last_seen ∷ t.snapshot);
      last_snapshot_at = some t.done_at;
    }
    else lp

-- The part after pushAll: `lp` holds the capture with the lines written meanwhile.
unfoldable pub settle : Setting → Loop → Tick → List Text → Outcome → Loop
settle s lp t records o =
    let high = scan_max_event_id s.env records in
    if o.ok
    then reconcile s
        (record lp {
          net = o.net;
          last_pushed = if ltb lp.last_pushed high then high else lp.last_pushed;
        })
        o.last_seen t
    else record lp {
      cap = rebuffer lp.cap o.unsent;
      backoff = next_backoff lp.backoff;
      net = logged o.net (codes "push failed, backing off");
    }

abbrev pub map_outcome : (Outcome → Loop) → Option Outcome → Option Loop
map_outcome f none = none
map_outcome f (some o) = some (f o)

unfoldable pub sent : Setting → Loop → Tick → List Text → Option Loop
sent s lp t [] = some lp
sent s lp t (r ∷ rs) =
    map_outcome (settle s (record lp { cap = write_all lp.cap t.during }) t (r ∷ rs))
      (push_all s.env lp.net (r ∷ rs))

unfoldable pub attempt : Setting → Loop → Tick → Option Loop
attempt s lp t = let (records, cap) = flush lp.cap in sent s (record lp { cap = cap }) t records

-- The case `<-ticker.C`. Where the source's backoff turns negative it is set to 0 at once.
unfoldable pub on_tick : Setting → Loop → Tick → Option Loop
on_tick s lp t =
    if ltb 0 lp.backoff
    then if ltb 0 (lp.backoff - push_interval)
      then some (record lp { backoff = lp.backoff - push_interval })
      else attempt s (record lp { backoff = 0 }) t
    else attempt s lp t

unfoldable pub stopped : Loop → LineCapture → Outcome → Loop
stopped lp cap o = record lp { running = false; cap = cap; net = o.net }

-- The case `<-ctx.Done()`: one last push, whose result is ignored.
unfoldable pub on_done : Setting → Loop → Option Loop
on_done s lp =
    let (records, cap) = flush lp.cap in
    map_outcome (stopped lp cap) (push_all s.env lp.net records)

-- After the end of the context the loop is gone, and lines only pile up.
unfoldable pub step : Setting → Loop → Event → Option Loop
step s lp (line p) = some (record lp { cap = (write lp.cap p wrote).0 })
step s lp (tick t) = if lp.running then on_tick s lp t else some lp
step s lp shutdown = if lp.running then on_done s lp else some lp

abbrev bind_loop : Option Loop → (Loop → Option Loop) → Option Loop
bind_loop none k = none
bind_loop (some lp) k = k lp

unfoldable pub run : Setting → Loop → List Event → Option Loop
run s lp [] = some lp
run s lp (e ∷ es) = bind_loop (step s lp e) (λ next. run s next es)

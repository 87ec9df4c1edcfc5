-- ===== src/Push.antt =====
-- The push to SPAM in internal/collector/push.go: `push`, `pushAll`, `scanMaxEventID`, and
-- `NextBackoff`. `Push.Loop` models `PushLoop`. HTTP and JSON are the record `Transport`.
pub mod Loop
pub mod Batches
pub mod Backoff
pub mod History
pub mod Delivery
pub mod Reconcile
pub mod Requests
pub mod Honest
pub mod Queue
pub mod Overflow
pub mod Refines
pub mod Recovery
mod Tests
use scam.Base.{
  ℕ, zero, suc, ◌+◌, ◌*◌, Bool, true, false, Option, none, some, List, [], ◌∷◌, ◌++◌, Text, codes,
  length, take, drop, ltb, if◌then◌else◌, nat_eq, ◌==◌,
}
use scam.Base.Duration.{second, minute}

abbrev pub push_interval : ℕ
push_interval = 30 * second

abbrev pub max_backoff : ℕ
max_backoff = 5 * minute

abbrev pub push_batch_limit : ℕ
push_batch_limit = 2000

pub record Reply : Type 0 where
  pub status : ℕ
  pub body : Text

-- What the packages encoding/json and net/http do. `post n body` is the answer to the process's
-- n-th request, with no value for a transport error. `decode_ack` is 0 where the field is missing
-- or the body is no JSON. `decode_event_id` has no value where Unmarshal fails.
pub record Transport : Type 0 where
  pub marshal : List Text → Option Text
  pub can_build : Bool
  pub post : ℕ → Text → Option Reply
  pub decode_ack : Text → ℕ
  pub decode_event_id : Text → Option ℕ

-- The far side: how many requests were sent, the records of those answered by 200, and the
-- messages of the local logger, which bypass the capture.
pub record Net : Type 0 where
  pub calls : ℕ
  pub accepted : List Text
  pub local_log : List Text

pub record Pushed : Type 0 where
  pub seen : ℕ
  pub ok : Bool
  pub net : Net

abbrev pub logged : Net → Text → Net
logged net m = record net { local_log = net.local_log ++ m ∷ [] }

abbrev pub failed : Net → Text → Pushed
failed net m = record { seen = 0; ok = false; net = logged net m }

-- What `push` makes of the answer to a request that went out.
unfoldable pub answered : Transport → Net → List Text → Option Reply → Pushed
answered env net records none = failed net (codes "push: post")
answered env net records (some r) =
    if r.status == 200
    then record {
      seen = env.decode_ack r.body;
      ok = true;
      net = record net { accepted = net.accepted ++ records };
    }
    else failed net (codes "push: unexpected status")

unfoldable pub posted : Transport → Net → List Text → Option Text → Pushed
unfolding answered
posted env net records none = failed net (codes "push: marshal")
posted env net records (some body) =
    if env.can_build
    then answered env (record net { calls = net.calls + 1 }) records (env.post net.calls body)
    else failed net (codes "push: build request")

unfoldable pub push : Transport → Net → List Text → Pushed
unfolding posted
push env net [] = record { seen = 0; ok = true; net = net }
push env net (r ∷ rs) = posted env net (r ∷ rs) (env.marshal (r ∷ rs))

pub record Outcome : Type 0 where
  pub last_seen : ℕ
  pub unsent : List Text
  pub ok : Bool
  pub net : Net

-- The records of the next request, at most `limit`.
unfoldable pub next_batch : ℕ → List Text → List Text
next_batch limit records = if ltb limit (length records) then take limit records else records

-- The loop of `pushAll`; no value means that the fuel ran out.
unfoldable pub push_batches : Transport → ℕ → Net → ℕ → List Text → Option Outcome
push_batches env f net seen [] =
    some (record { last_seen = seen; unsent = []; ok = true; net = net })
push_batches env zero net seen (r ∷ rs) = none
push_batches env (suc f) net seen (r ∷ rs) =
    let batch = next_batch push_batch_limit (r ∷ rs) in
    let p = push env net batch in
    let higher = if ltb seen p.seen then p.seen else seen in
    let rest = push_batches env f p.net higher (drop (length batch) (r ∷ rs)) in
    if p.ok
    then rest
    else some (record { last_seen = seen; unsent = r ∷ rs; ok = false; net = p.net })

-- A batch takes one record at least, so their number is fuel enough.
unfoldable pub push_all : Transport → Net → List Text → Option Outcome
push_all env net records = push_batches env (length records) net 0 records

abbrev higher_id : ℕ → Option ℕ → ℕ
higher_id m none = m
higher_id m (some id) = if ltb m id then id else m

unfoldable pub scan_from : Transport → ℕ → List Text → ℕ
scan_from env m [] = m
scan_from env m (r ∷ rs) = scan_from env (higher_id m (env.decode_event_id r)) rs

unfoldable pub scan_max_event_id : Transport → List Text → ℕ
scan_max_event_id env records = scan_from env 0 records

unfoldable pub next_backoff : ℕ → ℕ
next_backoff current =
    if current == 0
    then push_interval
    else if ltb max_backoff (current * 2)
    then max_backoff
    else current * 2

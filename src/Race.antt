-- ===== src/Race.antt =====
-- Goroutines that log at the same time. A record's event id is taken, by NextEventID of
-- internal/collector/eventid.go, when the arguments of Log.Info are built; the record is written
-- after that, and other goroutines may take ids and write between the two.
pub mod Ids
pub mod Stream
pub mod Sample
mod Tests
use scam.Base.{ℕ, zero, suc, ◌+◌, ◌%◌, ◌≡◌, Option, none, some, List, [], ◌∷◌, ◌++◌, Text}
use scam.Base.Duration.{word}
use scam.Emit.{Attrs, Record}

-- `taken` is how many ids were taken so far, `held` the records with an id that are not written
-- yet, one for each goroutine that is between the two.
pub record Racing : Type 0 where
  pub taken : ℕ
  pub next_event_id : ℕ
  pub held : List Record
  pub records : List Record

abbrev pub idle : Racing
idle = record { taken = 0; next_event_id = 0; held = []; records = [] }

-- nextEventID.Add(1), an atomic step.
abbrev pub next_id : Racing → ℕ
next_id s = (s.next_event_id + 1) % word

abbrev pub took : Racing → (message kind : Text) → Attrs → Racing
took s message kind attrs = record s {
  taken = suc s.taken;
  next_event_id = next_id s;
  held =
      record { message = message; kind = kind; event_id = some (next_id s); attrs = attrs }
      ∷ s.held;
}

abbrev pub wrote : Racing → (before : List Record) → Record → (after : List Record) → Racing
wrote s before r after = record s { held = before ++ after; records = s.records ++ r ∷ [] }

-- A record without an event id.
abbrev pub said : Racing → Text → Attrs → Racing
said s message attrs = record s {
  records =
      s.records ++ record { message = message; kind = []; event_id = none; attrs = attrs } ∷ [];
}

pub data Step (s : Racing) : Racing → Type 0 where
  take : (message kind : Text) (attrs : Attrs) → Step s (took s message kind attrs)
  write :
      (before : List Record) (r : Record) (after : List Record)
      → s.held ≡ before ++ r ∷ after
      → Step s (wrote s before r after)
  say : (message : Text) (attrs : Attrs) → Step s (said s message attrs)

pub data Reach : Racing → Type 0 where
  init : Reach idle
  later : {s t : Racing} → Reach s → Step s t → Reach t

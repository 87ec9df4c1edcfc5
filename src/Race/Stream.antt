-- ===== src/Race/Stream.antt =====
-- What the interleaved records become on the way to SPAM.
use mathlib.Core.List.{Perm}
use scam.Base.{
  ℕ, suc, ◌<◌, ◌≤◌, ◌≡◌, refl, sym, ap, ◌∙◌, subst, Option, some, true, List, [], ◌∷◌, ◌++◌,
  append_assoc, map, Text, length, arith,
}
use scam.Base.Duration.{word}
use scam.Capture.{max_buffer_size, starts_object}
use scam.Capture.Trim.{trim_space}
use scam.Push.Loop.{Loop, Event, Setting, start, run}
use scam.Push.History.{json_lines}
use scam.Push.Delivery.{run-whole}
use scam.Emit.{Record}
use scam.Race.{Racing, Reach}
use scam.Race.Ids.{ids, with_id, with_id-append, down_from, Reach-ids}

-- The ids that are read from lines.
abbrev pub read_ids : (Text → Option ℕ) → List Text → List ℕ
read_ids read_id [] = []
read_ids read_id (t ∷ ts) = with_id (read_id t) (read_ids read_id ts)

-- What is assumed of the JSON handler: a record becomes one line that is an object, from which its
-- id can be read.
abbrev pub IsEncoder : (Record → Text) → (Text → Option ℕ) → Type 0
IsEncoder encode read_id =
    (r : Record)
    → (starts_object (trim_space (encode r)) ≡ true)
      × (read_id (trim_space (encode r)) ≡ r.event_id)

module _ (encode : Record → Text) (read_id : Text → Option ℕ) where
  read_encoded :
      IsEncoder encode read_id
      → (rs : List Record) → read_ids read_id (json_lines (map encode rs)) ≡ ids rs
  unfolding json_lines
  read_encoded h [] = refl
  read_encoded h (r ∷ rs) = rw ((h r).0, (h r).1) (ap (with_id r.event_id) (read_encoded h rs))

  encoded-length :
      IsEncoder encode read_id
      → (rs : List Record) → length (json_lines (map encode rs)) ≡ length rs
  unfolding json_lines
  encoded-length h [] = refl
  encoded-length h (r ∷ rs) = rw ((h r).0) (ap suc (encoded-length h rs))

pub read_ids-append :
    (read_id : Text → Option ℕ) (ts us : List Text)
    → read_ids read_id (ts ++ us) ≡ read_ids read_id ts ++ read_ids read_id us
read_ids-append read_id [] us = refl
read_ids-append read_id (t ∷ ts) us =
    ap (with_id (read_id t)) (read_ids-append read_id ts us)
    ∙ with_id-append (read_id t) (read_ids read_id ts) (read_ids read_id us)

-- While the push loop runs and the buffer is large enough, the lines that SPAM has accepted and
-- those in the buffer have the ids of the records, in their order.
pub run-read :
    (encode : Record → Text) (read_id : Text → Option ℕ) (rs : List Record) (x : Setting)
    (es : List Event) (lp : Loop)
    → IsEncoder encode read_id
    → run x start es ≡ some lp
    → lp.running ≡ true
    → lp.cap.stdout ≡ map encode rs
    → length rs ≤ max_buffer_size
    → read_ids read_id lp.net.accepted ++ read_ids read_id lp.cap.buf ≡ ids rs
run-read encode read_id rs x es lp h found up same fits =
    let lines : length (json_lines lp.cap.stdout) ≡ length rs =
      ap (λ ps. length (json_lines ps)) same ∙ encoded-length encode read_id h rs in
    let whole = run-whole x es lp found up (omega (arith, lines, fits)) in
    sym (read_ids-append read_id lp.net.accepted lp.cap.buf)
    ∙ ap (read_ids read_id) (whole ∙ ap json_lines same)
    ∙ read_encoded encode read_id h rs

-- While the push loop runs, with a buffer that was large enough: the ids on the lines that SPAM
-- has accepted, on those in the buffer, and on the records that goroutines hold back are 1, …, n,
-- each once, where n ids were taken: whatever the interleaving and however the network answers, no
-- event is lost, and none is in two batches that SPAM answered with 200.
pub run-ids :
    (encode : Record → Text) (read_id : Text → Option ℕ) (s : Racing) (x : Setting)
    (es : List Event) (lp : Loop)
    → IsEncoder encode read_id
    → Reach s
    → s.taken < word
    → run x start es ≡ some lp
    → lp.running ≡ true
    → lp.cap.stdout ≡ map encode s.records
    → length s.records ≤ max_buffer_size
    → Perm
        (read_ids read_id lp.net.accepted ++ (read_ids read_id lp.cap.buf ++ ids s.held))
        (down_from s.taken)
run-ids encode read_id s x es lp h r few found up same fits =
    let read = run-read encode read_id s.records x es lp h found up same fits in
    subst (λ is. Perm is (down_from s.taken))
      (sym (ap (λ is. is ++ ids s.held) read) ∙ append_assoc _ _ (ids s.held)) (Reach-ids s r few)

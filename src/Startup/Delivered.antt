-- ===== src/Startup/Delivered.antt =====
-- From the start of the process to SPAM: main's snapshot and stream through the capture and the
-- push loop.
use scam.Base.{
  ℕ, zero, suc, ◌+◌, ◌%◌, ◌≤◌, ◌≡◌, refl, sym, ap, ◌∙◌, subst, inl, inr, true, false, Option, none,
  some, List, [], ◌∷◌, ◌++◌, arith, Text, map, length, drop, All,
}
use scam.Base.Duration.{word}
use scam.Capture.{max_buffer_size}
use scam.Push.Loop.{Loop, Event, Tick, tick, Setting, start, step, run}
use scam.Push.Recovery.{IsUp, step-Delivers}
use scam.Emit.{Record, Log}
use scam.Emit.Ids.{Follows, Numbered, Extends, Extends-trans, put_all-Extends}
use scam.Emit.Quiet.{NoId, Quiet-Extends, report-Quiet}
use scam.Race.Ids.{ids, with_id}
use scam.Race.Stream.{read_ids, read_ids-append, IsEncoder, run-read}
use scam.Watch.{Notified}
use scam.Startup.Config.{Given}
use scam.Startup.{Process, streaming, main}
use scam.Startup.Outcomes.{Ends, Starts, checks, first_failure, main-Ends}
use scam.Startup.Stream.{Ends-streaming}

-- The ids that follow `n`, one by one, up to `m`.
abbrev pub Consecutive : ℕ → List ℕ → ℕ → Type 0
Consecutive n [] m = n ≡ m
Consecutive n (i ∷ is) m = (i ≡ (n + 1) % word) × Consecutive i is m

with_id-Consecutive :
    (n : ℕ) (o : Option ℕ) (rs : List Record) (m : ℕ)
    → ((i : ℕ) → Numbered i rs m → Consecutive i (ids rs) m)
    → Follows n o (λ id. Numbered id rs m)
    → Consecutive n (with_id o (ids rs)) m
with_id-Consecutive n none rs m f h = f n h
with_id-Consecutive n (some id) rs m f (e, h) = (e, f id h)

ids-Consecutive : (n : ℕ) (rs : List Record) (m : ℕ) → Numbered n rs m → Consecutive n (ids rs) m
ids-Consecutive n [] m h = h
ids-Consecutive n (r ∷ rs) m h =
    with_id-Consecutive n r.event_id rs m (λ i. ids-Consecutive i rs m) h

-- Records without ids in front may go or stay.
ids-drop :
    (k : ℕ) (rs ss : List Record) → All NoId rs → k ≤ length rs → ids (drop k (rs ++ ss)) ≡ ids ss
ids-drop zero [] ss h low = refl
ids-drop (suc k) [] ss h low = absurd (omega arith)
ids-drop zero (r ∷ rs) ss h low = rw h.0 (ids-drop zero rs ss h.1 (omega arith))
ids-drop (suc k) (r ∷ rs) ss h low = ids-drop k rs ss h.1 (omega arith)

started :
    (b : Given) (early : List Notified) (p : Process)
    → b.flags.show_version ≡ false
    → main b early ≡ streaming p
    → Starts b p
started b early p e found =
    Ends-streaming b p _
      (subst (λ r. Ends b r (first_failure (checks b))) found (main-Ends b early e))

streamed-Extends : (b : Given) (p : Process) (s : Starts b p) → Extends s.before p.log
streamed-Extends b p s =
    rw s.streamed (Extends-trans (put_all-Extends _ s.before) (Quiet-Extends (report-Quiet _ [] _)))

captured_low :
    (b : Given) (p : Process) (s : Starts b p) (k : ℕ)
    → p.captured_from ≡ some k
    → k ≤ length s.before.records
captured_low b p s k e = elim s.captured [
  | inl (nothing, _) ↦ absurd (ground arith)
  | inr (j, found, low) ↦ ground arith
]

-- A process that streams with a capture: whatever its goroutines log after the start, under
-- consecutive event ids, and however the network answers, as long as the lines fit the buffer and
-- the push loop runs, the ids on the lines that SPAM has accepted, followed by those in the buffer,
-- are 1, 2, 3 and so on (modulo 2^64), up to the last id that was taken. None is missing or
-- repeated, from the initial snapshot on.
pub main-delivered :
    (b : Given) (early : List Notified) (p : Process) (l : Log) (k : ℕ) (encode : Record → Text)
    (read_id : Text → Option ℕ) (x : Setting) (es : List Event) (lp : Loop)
    → b.flags.show_version ≡ false
    → main b early ≡ streaming p
    → p.captured_from ≡ some k
    → Extends p.log l
    → IsEncoder encode read_id
    → run x start es ≡ some lp
    → lp.running ≡ true
    → lp.cap.stdout ≡ map encode (drop k l.records)
    → length (drop k l.records) ≤ max_buffer_size
    → Consecutive 0
        (read_ids read_id lp.net.accepted ++ read_ids read_id lp.cap.buf)
        l.next_event_id
main-delivered b early p l k encode read_id x es lp e found from ext h ran up same fits =
    let s = started b early p e found in
    let whole = Extends-trans (streamed-Extends b p s) ext in
    let silent : All NoId s.before.records = rw s.quiet.appended s.quiet.silent in
    let front = ids-drop k s.before.records whole.new silent (captured_low b p s k from) in
    let new : ids (drop k l.records) ≡ ids whole.new =
      ap (λ rs. ids (drop k rs)) whole.appended ∙ front in
    let read = run-read encode read_id (drop k l.records) x es lp h ran up same fits in
    subst (λ is. Consecutive 0 is l.next_event_id) (sym (read ∙ new))
      (ids-Consecutive 0 whole.new l.next_event_id
        (subst (λ n. Numbered n whole.new l.next_event_id) s.quiet.same_id whole.numbered))

-- In the setting of main-delivered, once the network is up: after the next tick of the push loop,
-- SPAM itself holds the ids 1, 2, 3 and so on (modulo 2^64), up to the last id that was taken before
-- it, each once and in order.
pub main-recovers :
    (b : Given) (early : List Notified) (p : Process) (l : Log) (k : ℕ) (encode : Record → Text)
    (read_id : Text → Option ℕ) (x : Setting) (es : List Event) (lp : Loop) (t : Tick)
    → b.flags.show_version ≡ false
    → main b early ≡ streaming p
    → p.captured_from ≡ some k
    → Extends p.log l
    → IsEncoder encode read_id
    → run x start es ≡ some lp
    → lp.running ≡ true
    → lp.cap.stdout ≡ map encode (drop k l.records)
    → length (drop k l.records) ≤ max_buffer_size
    → IsUp x.env lp.net.calls
    → (next : Loop) × (step x lp (tick t) ≡ some next)
      × Consecutive 0 (read_ids read_id next.net.accepted) l.next_event_id
main-recovers b early p l k encode read_id x es lp t shown found from ext h ran on same fits up =
    let (next, stepped, all) = step-Delivers x es lp (tick t) ran on up tt in
    let both = ap (read_ids read_id) all ∙ read_ids-append read_id lp.net.accepted lp.cap.buf in
    (
      next,
      stepped,
      subst (λ is. Consecutive 0 is l.next_event_id) (sym both)
          (main-delivered b early p l k encode read_id x es lp shown found from ext h ran on same
            fits),
    )

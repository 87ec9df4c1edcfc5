-- ===== src/Push/History.antt =====
-- What the capture holds, against all that was ever written to it.
use scam.Base.{
  ◌≤◌, ◌<◌, ◌≡◌, refl, sym, ap, ◌∙◌, inl, inr, true, false, List, [], ◌∷◌, ◌++◌, append-nil,
  append_assoc, arith, Text, length, length-append, Sub, Sub-refl, Sub-trans, Sub-append,
  Bool-cases, if◌then◌else◌,
}
use scam.Capture.{
  LineCapture, Written, write, make_room, keep_newest, starts_object, max_buffer_size, rebuffer,
}
use scam.Capture.Trim.{trim_space}
use scam.Capture.Bounds.{
  make_room-length, make_room_id, make_room-Sub, keep_newest-length, keep_newest_id,
  keep_newest-Sub,
}
use scam.Push.Loop.{write_all, wrote}

-- The JSON lines among what was written, trimmed.
unfoldable pub json_lines : List Text → List Text
json_lines [] = []
json_lines (p ∷ ps) =
    let t = trim_space p in if starts_object t then t ∷ json_lines ps else json_lines ps

json_lines-append : (ps qs : List Text) → json_lines (ps ++ qs) ≡ json_lines ps ++ json_lines qs
unfolding json_lines
json_lines-append [] qs = refl
json_lines-append (p ∷ ps) qs = ground (arith, json_lines-append ps qs)

pub json_lines-json :
    (ps : List Text) (p : Text)
    → starts_object (trim_space p) ≡ true
    → json_lines (ps ++ p ∷ []) ≡ json_lines ps ++ trim_space p ∷ []
unfolding json_lines
json_lines-json ps p e = json_lines-append ps (p ∷ []) ∙ ap (◌++◌ (json_lines ps)) (rw e)

pub json_lines-other :
    (ps : List Text) (p : Text)
    → starts_object (trim_space p) ≡ false
    → json_lines (ps ++ p ∷ []) ≡ json_lines ps
unfolding json_lines
json_lines-other ps p e =
    json_lines-append ps (p ∷ []) ∙ ap (◌++◌ (json_lines ps)) (rw e) ∙ append-nil (json_lines ps)

-- `held` are the lines that have left the buffer. Nothing is kept twice or out of order.
pub record Keeps (held : List Text) (cap : LineCapture) : Type 0 where
  pub bounded : length cap.buf ≤ max_buffer_size
  pub ordered : Sub (held ++ cap.buf) (json_lines cap.stdout)

-- Nothing is missing, as long as the lines fit the buffer.
pub record IsWhole (held : List Text) (cap : LineCapture) : Type 0 where
  pub whole :
      length (json_lines cap.stdout) ≤ max_buffer_size → held ++ cap.buf ≡ json_lines cap.stdout

module _ (held : List Text) (cap : LineCapture) (p : Text) (r : Written) where
  pub write-Keeps : Keeps held cap → Keeps held (write cap p r).0
  unfolding write
  write-Keeps k = elim (Bool-cases (starts_object (trim_space p))) [
    | inl e ↦ record {
      bounded = rw e (
          omega (
            arith,
            length-append (make_room cap.buf) (trim_space p ∷ []),
            make_room-length cap.buf k.bounded,
          ));
      ordered =
          rw (e, json_lines-json cap.stdout p e, ← append_assoc held (make_room cap.buf) _)
            (Sub-append (Sub-trans k.ordered (Sub-append (Sub-refl held) (make_room-Sub cap.buf)))
              (Sub-refl _));
    }
    | inr e ↦ record {
      bounded = rw e k.bounded;
      ordered = rw (e, json_lines-other cap.stdout p e) k.ordered;
    }
  ]

  json_room :
      IsWhole held cap
      → length (json_lines cap.stdout) < max_buffer_size
      → (held ++ cap.buf ≡ json_lines cap.stdout) × (make_room cap.buf ≡ cap.buf)
  json_room w h =
      let e = w.whole (omega arith) in
      (e, make_room_id cap.buf (omega (arith, ap length e, length-append held cap.buf)))

  pub write-IsWhole : IsWhole held cap → IsWhole held (write cap p r).0
  unfolding write
  write-IsWhole w = elim (Bool-cases (starts_object (trim_space p))) [
    | inl e ↦ record { whole = rw (e, json_lines-json cap.stdout p e) (added e) }
    | inr e ↦ record { whole = rw (e, json_lines-other cap.stdout p e) w.whole }
  ]
    where
      added :
          starts_object (trim_space p) ≡ true
          → length (json_lines cap.stdout ++ trim_space p ∷ []) ≤ max_buffer_size
          → held ++ (make_room cap.buf ++ trim_space p ∷ [])
            ≡ json_lines cap.stdout ++ trim_space p ∷ []
      added e h =
          let (same, room) =
            json_room w
              (omega (arith, length-append (json_lines cap.stdout) (trim_space p ∷ []))) in
          rw (room, ← append_assoc held cap.buf _, same)

pub write_all-Keeps :
    (held : List Text) (cap : LineCapture) (ps : List Text)
    → Keeps held cap
    → Keeps held (write_all cap ps)
unfolding write_all
write_all-Keeps held cap [] k = k
write_all-Keeps held cap (p ∷ ps) k =
    write_all-Keeps held (write cap p wrote).0 ps (write-Keeps held cap p wrote k)

pub write_all-IsWhole :
    (held : List Text) (cap : LineCapture) (ps : List Text)
    → IsWhole held cap
    → IsWhole held (write_all cap ps)
unfolding write_all
write_all-IsWhole held cap [] w = w
write_all-IsWhole held cap (p ∷ ps) w =
    write_all-IsWhole held (write cap p wrote).0 ps (write-IsWhole held cap p wrote w)

-- Taking the buffer out hands its lines over to `held`.
module _ (held : List Text) (cap : LineCapture) where
  pub taken-Keeps : Keeps held cap → Keeps (held ++ cap.buf) (record cap { buf = [] })
  taken-Keeps k = record { bounded = omega arith; ordered = rw append-nil k.ordered }

  pub taken-IsWhole : IsWhole held cap → IsWhole (held ++ cap.buf) (record cap { buf = [] })
  taken-IsWhole w = record { whole = λ h. rw append-nil (w.whole h) }

-- Putting the unsent lines back.
module _ (held sent unsent : List Text) (cap : LineCapture) where
  regroup : (held ++ (sent ++ unsent)) ++ cap.buf ≡ (held ++ sent) ++ (unsent ++ cap.buf)
  regroup = simp append_assoc

  pub rebuffer-Keeps :
      Keeps (held ++ (sent ++ unsent)) cap → Keeps (held ++ sent) (rebuffer cap unsent)
  unfolding rebuffer
  rebuffer-Keeps k = record {
    bounded = keep_newest-length (unsent ++ cap.buf);
    ordered =
        Sub-trans (rw regroup at (k.ordered))
          (Sub-append (Sub-refl (held ++ sent)) (keep_newest-Sub (unsent ++ cap.buf)));
  }

  pub rebuffer-IsWhole :
      IsWhole (held ++ (sent ++ unsent)) cap → IsWhole (held ++ sent) (rebuffer cap unsent)
  unfolding rebuffer
  rebuffer-IsWhole w = record { whole = restored }
    where
      restored :
          length (json_lines cap.stdout) ≤ max_buffer_size
          → (held ++ sent) ++ keep_newest (unsent ++ cap.buf) ≡ json_lines cap.stdout
      restored h =
          let e = sym regroup ∙ w.whole h in
          let fits : length (unsent ++ cap.buf) ≤ max_buffer_size =
            omega (arith, ap length e, length-append (held ++ sent) (unsent ++ cap.buf)) in
          ap (◌++◌ (held ++ sent)) (keep_newest_id (unsent ++ cap.buf) fits) ∙ e

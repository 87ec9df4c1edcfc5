-- ===== src/Push/Overflow.antt =====
-- What LineCapture does to the queue: a written line is offered, and lines are lost above the
-- capacity only.
use scam.Base.{
  ℕ, ◌+◌, ◌-◌, ◌≤◌, ◌<◌, ◌≡◌, refl, sym, ap, ◌∙◌, subst, inl, inr, ◌⊎◌, Bool, List, [], ◌∷◌, ◌++◌,
  append_assoc, arith, Text, length, take, drop, ltb, leb, length-append, length-drop,
  take-append-drop, Bool-cases, leb→le, ltb→lt,
}
use scam.Capture.{
  LineCapture, write, make_room, keep_newest, rebuffer, starts_object, max_buffer_size,
}
use scam.Capture.Trim.{trim_space}
use scam.Push.History.{json_lines, json_lines-json, json_lines-other}
use scam.Push.Loop.{write_all, wrote}
use scam.Push.Queue.{Queue, queue, offer, lose, QueueSteps, none_yet, QueueSteps-trans, one}

-- The queue of a state in which `taken` has left the buffer and is on its way.
abbrev pub with_taken : Bool → (delivered taken : List Text) → LineCapture → Queue
with_taken up delivered taken cap = queue up (json_lines cap.stdout) delivered (taken ++ cap.buf)

module _ (up : Bool) (offered delivered taken : List Text) where
  -- Lines in the middle go, as long as those behind them fill the buffer.
  lose_all :
      (xs ys : List Text)
      → max_buffer_size ≤ length ys
      → QueueSteps
          (queue up offered delivered (taken ++ (xs ++ ys)))
          (queue up offered delivered (taken ++ ys))
  lose_all [] ys h = none_yet
  lose_all (x ∷ xs) ys h =
      QueueSteps-trans
        (one (
          lose taken x (xs ++ ys) refl
            (omega (arith, h, length-append taken (x ∷ (xs ++ ys)), length-append xs ys))))
        (lose_all xs ys h)

-- What make_room takes off is in front, and with the next line the buffer is full then.
make_room-front :
    (buf : List Text) (t : Text)
    → (xs : List Text) × (xs ++ make_room buf ≡ buf)
      × ((xs ≡ []) ⊎ (max_buffer_size ≤ length (make_room buf ++ t ∷ [])))
unfolding make_room
make_room-front buf t = elim (Bool-cases (leb max_buffer_size (length buf))) [
  | inl e ↦
      let more : ℕ = length buf - max_buffer_size + 1 in
      let full : max_buffer_size ≤ length buf = leb→le _ _ e in
      rw e (
        take more buf,
        take-append-drop more buf,
        inr (omega (arith, full, length-append (drop more buf) (t ∷ []), length-drop more buf)),
      )
  | inr e ↦ rw e ([], refl, inl refl)
]

-- What keep_newest takes off is in front too, and the buffer is full then.
keep_newest-front :
    (buf : List Text)
    → (xs : List Text) × (xs ++ keep_newest buf ≡ buf)
      × ((xs ≡ []) ⊎ (max_buffer_size ≤ length (keep_newest buf)))
unfolding keep_newest
keep_newest-front buf = elim (Bool-cases (ltb max_buffer_size (length buf))) [
  | inl e ↦
      let more : ℕ = length buf - max_buffer_size in
      let full : max_buffer_size < length buf = ltb→lt _ _ e in
      rw e
        (take more buf, take-append-drop more buf, inr (omega (arith, full, length-drop more buf)))
  | inr e ↦ rw e ([], refl, inl refl)
]

module _ (up : Bool) (delivered taken : List Text) where
  -- The lines of the front go, if there are any.
  lose_front :
      (offered xs ys : List Text)
      → (xs ≡ []) ⊎ (max_buffer_size ≤ length ys)
      → QueueSteps
          (queue up offered delivered (taken ++ (xs ++ ys)))
          (queue up offered delivered (taken ++ ys))
  lose_front offered [] ys h = none_yet
  lose_front offered (x ∷ xs) ys (inl e) = absurd cc
  lose_front offered (x ∷ xs) ys (inr full) = lose_all up offered delivered taken (x ∷ xs) ys full

  pub write-QueueSteps :
      (cap : LineCapture) (p : Text)
      → QueueSteps
          (with_taken up delivered taken cap)
          (with_taken up delivered taken (write cap p wrote).0)
  unfolding write
  write-QueueSteps cap p = elim (Bool-cases (starts_object (trim_space p))) [
    | inl e ↦
        let t : Text = trim_space p in
        let (xs, front, full) = make_room-front cap.buf t in
        rw (e, json_lines-json cap.stdout p e)
          (QueueSteps-trans (one (offer t)) (
            subst
              (λ pending.
                QueueSteps (queue up (json_lines cap.stdout ++ t ∷ []) delivered pending) (
                  queue up (json_lines cap.stdout ++ t ∷ []) delivered
                    (taken ++ (make_room cap.buf ++ t ∷ []))))
              (ap (◌++◌ taken)
                  (sym (append_assoc xs (make_room cap.buf) (t ∷ [])) ∙ ap (λ b. b ++ t ∷ []) front)
                ∙ sym (append_assoc taken cap.buf (t ∷ [])))
              (lose_front _ xs (make_room cap.buf ++ t ∷ []) full)))
    | inr e ↦ rw (e, json_lines-other cap.stdout p e) none_yet
  ]

  pub write_all-QueueSteps :
      (cap : LineCapture) (ps : List Text)
      → QueueSteps
          (with_taken up delivered taken cap)
          (with_taken up delivered taken (write_all cap ps))
  unfolding write_all
  write_all-QueueSteps cap [] = none_yet
  write_all-QueueSteps cap (p ∷ ps) =
      QueueSteps-trans (write-QueueSteps cap p) (write_all-QueueSteps (write cap p wrote).0 ps)

pub rebuffer-QueueSteps :
    (up : Bool) (delivered unsent : List Text) (cap : LineCapture)
    → QueueSteps
        (with_taken up delivered unsent cap)
        (with_taken up delivered [] (rebuffer cap unsent))
unfolding rebuffer
rebuffer-QueueSteps up delivered unsent cap =
    let (xs, front, full) = keep_newest-front (unsent ++ cap.buf) in
    subst
      (λ pending.
        QueueSteps (queue up (json_lines cap.stdout) delivered pending)
          (with_taken up delivered [] (rebuffer cap unsent)))
      front
      (lose_front up delivered [] (json_lines cap.stdout) xs (keep_newest (unsent ++ cap.buf)) full)

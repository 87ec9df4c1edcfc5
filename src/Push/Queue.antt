-- ===== src/Push/Queue.antt =====
-- What PushLoop and its capture promise, without buffers, batches and retries: a queue of lines
-- from which SPAM takes them in their order, and which loses lines only above its capacity.
use scam.Base.{
  ◌≤◌, ◌<◌, ◌≡◌, refl, ap, Bool, true, false, List, [], ◌∷◌, ◌++◌, append_assoc, append-nil, arith,
  Text, length, length-append, Sub, Sub-refl, Sub-trans, Sub-append, Sub-left, skip, done,
}
use scam.Capture.{max_buffer_size}

-- `offered` are the lines ever put in, `delivered` those that SPAM has accepted.
pub record Queue : Type 0 where
  pub is_open : Bool
  pub offered : List Text
  pub delivered : List Text
  pub pending : List Text

abbrev pub queue : Bool → (offered delivered pending : List Text) → Queue
queue is_open offered delivered pending = record {
  is_open = is_open;
  offered = offered;
  delivered = delivered;
  pending = pending;
}

pub data QueueStep (q : Queue) : Queue → Type 0 where
  offer :
      (p : Text)
      → QueueStep q (queue q.is_open (q.offered ++ p ∷ []) q.delivered (q.pending ++ p ∷ []))
  lose :
      (before : List Text) (p : Text) (after : List Text)
      → q.pending ≡ before ++ p ∷ after
      → max_buffer_size < length q.pending
      → QueueStep q (queue q.is_open q.offered q.delivered (before ++ after))
  deliver :
      (sent rest : List Text)
      → q.is_open ≡ true
      → q.pending ≡ sent ++ rest
      → QueueStep q (queue q.is_open q.offered (q.delivered ++ sent) rest)
  close : q.is_open ≡ true → QueueStep q (queue false q.offered q.delivered [])

pub data QueueSteps (q : Queue) : Queue → Type 0 where
  none_yet : QueueSteps q q
  and_then : {r t : Queue} → QueueSteps q r → QueueStep r t → QueueSteps q t

pub QueueSteps-trans : {q r t : Queue} → QueueSteps q r → QueueSteps r t → QueueSteps q t
QueueSteps-trans ms none_yet = ms
QueueSteps-trans ms (and_then ns n) = and_then (QueueSteps-trans ms ns) n

pub one : {q r : Queue} → QueueStep q r → QueueSteps q r
one m = and_then none_yet m

abbrev pub empty : Queue
empty = queue true [] [] []

-- Nothing is delivered twice, reordered or made up, and nothing is lost while all that was offered
-- fits.
pub record Sound (q : Queue) : Type 0 where
  pub ordered : Sub (q.delivered ++ q.pending) q.offered
  pub whole :
      q.is_open ≡ true → length q.offered ≤ max_buffer_size → q.delivered ++ q.pending ≡ q.offered

QueueStep-Sound : {q r : Queue} → Sound q → QueueStep q r → Sound r
QueueStep-Sound {q} s (offer p) = record {
  ordered =
      rw (← append_assoc q.delivered q.pending (p ∷ [])) (Sub-append s.ordered (Sub-refl (p ∷ [])));
  whole = λ up h.
      rw (← append_assoc q.delivered q.pending (p ∷ []))
        (ap (λ ts. ts ++ p ∷ []) (s.whole up (omega (arith, h, length-append q.offered (p ∷ [])))));
}
QueueStep-Sound {q} s (lose before p after e over) = record {
  ordered = Sub-trans s.ordered (
      Sub-append (Sub-refl q.delivered)
        (rw e (Sub-append (Sub-refl before) (skip (Sub-refl after)))));
  whole = λ up h.
      absurd
        (omega (arith, h, over, ap length (s.whole up h), length-append q.delivered q.pending));
}
QueueStep-Sound {q} s (deliver sent rest up e) = record {
  ordered = rw (append_assoc, ← e) s.ordered;
  whole = λ _ h. rw (append_assoc, ← e) (s.whole up h);
}
QueueStep-Sound {q} s (close up) = record {
  ordered = Sub-trans s.ordered (rw append-nil (Sub-left q.delivered q.pending));
  whole = λ (e : false ≡ true) h. cc;
}

QueueSteps-Sound : {q r : Queue} → Sound q → QueueSteps q r → Sound r
QueueSteps-Sound s none_yet = s
QueueSteps-Sound s (and_then ms m) = QueueStep-Sound (QueueSteps-Sound s ms) m

-- Every queue that the moves reach from the empty one: what was delivered, followed by what is
-- pending, is a sublist of what was offered, in its order; and all of it, as long as the queue is
-- open and no more was offered than fits.
pub empty-Sound : (q : Queue) → QueueSteps empty q → Sound q
empty-Sound q ms = QueueSteps-Sound (record { ordered = done; whole = λ up h. refl }) ms

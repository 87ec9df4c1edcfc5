-- ===== src/Emit/Ids.antt =====
-- The event ids of what is logged are consecutive.
use scam.Base.{
  ℕ, ◌+◌, ◌%◌, ◌≡◌, refl, sym, ap, ◌∙◌, Option, none, some, List, [], ◌∷◌, ◌++◌, append-nil,
  append_assoc,
}
use scam.Base.Duration.{word}
use scam.Emit.{Record, Log, Draft, stamped, plain, bumped, emit, report, put, put_all}

-- The next id is one more than the last one; a record without an id changes nothing.
abbrev pub Follows : ℕ → Option ℕ → (ℕ → Type 0) → Type 0
Follows n none P = P n
Follows n (some id) P = (id ≡ (n + 1) % word) × P id

-- The records carry the ids that follow `n`, up to `m`.
abbrev pub Numbered : ℕ → List Record → ℕ → Type 0
Numbered n [] m = n ≡ m
Numbered n (r ∷ rs) m = Follows n r.event_id (λ id. Numbered id rs m)

Follows-mono :
    (n : ℕ) (o : Option ℕ) {P Q : ℕ → Type 0}
    → ((id : ℕ) → P id → Q id)
    → Follows n o P
    → Follows n o Q
Follows-mono n none f h = f n h
Follows-mono n (some id) f (e, h) = (e, f id h)

pub record Extends (l l' : Log) : Type 0 where
  pub new : List Record
  pub appended : l'.records ≡ l.records ++ new
  pub numbered : Numbered l.next_event_id new l'.next_event_id

pub Extends-refl : (l : Log) → Extends l l
Extends-refl l = record { new = []; appended = sym (append-nil l.records); numbered = refl }

Numbered-append :
    (n : ℕ) (rs : List Record) (m : ℕ) (ss : List Record) (k : ℕ)
    → Numbered n rs m
    → Numbered m ss k
    → Numbered n (rs ++ ss) k
Numbered-append n [] m ss k h j = rw h j
Numbered-append n (r ∷ rs) m ss k h j =
    Follows-mono n r.event_id (λ id later. Numbered-append id rs m ss k later j) h

pub Extends-trans : {l l' l'' : Log} → Extends l l' → Extends l' l'' → Extends l l''
Extends-trans {l} {l'} {l''} e f = record {
  new = e.new ++ f.new;
  appended = f.appended ∙ ap (λ rs. rs ++ f.new) e.appended ∙ append_assoc l.records e.new f.new;
  numbered =
      Numbered-append l.next_event_id e.new l'.next_event_id f.new l''.next_event_id e.numbered
        f.numbered;
}

pub put-Extends : (d : Draft) (l : Log) → Extends l (put d l)
unfolding put emit report bumped
put-Extends (stamped message kind attrs) l = record {
  new = _;
  appended = refl;
  numbered = (refl, refl);
}
put-Extends (plain message attrs) l = record { new = _; appended = refl; numbered = refl }

pub put_all-append :
    (ds es : List Draft) (l : Log) → put_all (ds ++ es) l ≡ put_all es (put_all ds l)
unfolding put_all
put_all-append [] es l = refl
put_all-append (d ∷ ds) es l = put_all-append ds es (put d l)

-- Whatever is logged comes behind what was, under consecutive event ids.
pub put_all-Extends : (ds : List Draft) (l : Log) → Extends l (put_all ds l)
unfolding put_all
put_all-Extends [] l = Extends-refl l
put_all-Extends (d ∷ ds) l = Extends-trans (put-Extends d l) (put_all-Extends ds (put d l))

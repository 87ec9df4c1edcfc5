-- ===== src/Emit/Quiet.antt =====
-- Steps that log no event: they take no event id, and what they add has none.
use scam.Base.{
  ℕ, ◌≡◌, refl, sym, ap, ◌∙◌, none, List, [], ◌∷◌, ◌++◌, append-nil, append_assoc, Bool, true,
  false, if◌then◌else◌, All, All-append, Text,
}
use scam.Emit.{Record, Log, Attrs, report}
use scam.Emit.Ids.{Numbered, Extends}

abbrev pub NoId : Record → Type 0
NoId r = r.event_id ≡ none

pub record Quiet (l l' : Log) : Type 0 where
  pub new : List Record
  pub appended : l'.records ≡ l.records ++ new
  pub silent : All NoId new
  pub same_id : l'.next_event_id ≡ l.next_event_id

pub Quiet-refl : (l : Log) → Quiet l l
Quiet-refl l = record {
  new = [];
  appended = sym (append-nil l.records);
  silent = tt;
  same_id = refl;
}

pub Quiet-trans : {l l' l'' : Log} → Quiet l l' → Quiet l' l'' → Quiet l l''
Quiet-trans {l} {l'} {l''} e f = record {
  new = e.new ++ f.new;
  appended = f.appended ∙ ap (λ rs. rs ++ f.new) e.appended ∙ append_assoc l.records e.new f.new;
  silent = All-append NoId e.new f.new e.silent f.silent;
  same_id = f.same_id ∙ e.same_id;
}

pub report-Quiet : (message : Text) (attrs : Attrs) (l : Log) → Quiet l (report message attrs l)
unfolding report
report-Quiet message attrs l = record {
  new = _;
  appended = refl;
  silent = (refl, tt);
  same_id = refl;
}

-- Two branches that return a value and a log.
pub if-Quiet :
    {A : Type 0} (b : Bool) {l : Log} (x y : A × Log)
    → Quiet l x.1
    → Quiet l y.1
    → Quiet l (if b then x else y).1
if-Quiet true x y h j = h
if-Quiet false x y h j = j

Numbered-silent : (n : ℕ) (rs : List Record) → All NoId rs → Numbered n rs n
Numbered-silent n [] h = refl
Numbered-silent n (r ∷ rs) h = rw h.0 (Numbered-silent n rs h.1)

pub Quiet-Extends : {l l' : Log} → Quiet l l' → Extends l l'
Quiet-Extends {l} {l'} q = record {
  new = q.new;
  appended = q.appended;
  numbered = rw q.same_id (Numbered-silent l.next_event_id q.new q.silent);
}

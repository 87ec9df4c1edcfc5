-- ===== src/Race/Ids.antt =====
-- Every id is on one record, whatever the interleaving; and one goroutine alone is a case of it.
use mathlib.Core.List.{Perm, perm_middle}
use mathlib.Core.List.Perm
use scam.Base.{
  ℕ, zero, suc, ◌%◌, ◌<◌, ◌≡◌, refl, sym, ap, ◌∙◌, subst, Option, none, some, List, [], ◌∷◌, ◌++◌,
  append-nil, append_assoc, arith,
}
use scam.Base.Duration.{word}
use scam.Emit.{Record}
use scam.Race.{Racing, idle, next_id, Step, take, write, say, Reach, init, later}

abbrev pub with_id : Option ℕ → List ℕ → List ℕ
with_id none is = is
with_id (some id) is = id ∷ is

-- The event ids of the records, in their order.
abbrev pub ids : List Record → List ℕ
ids [] = []
ids (r ∷ rs) = with_id r.event_id (ids rs)

-- n, n - 1, …, 1.
abbrev pub down_from : ℕ → List ℕ
down_from zero = []
down_from (suc n) = suc n ∷ down_from n

pub with_id-append : (o : Option ℕ) (is js : List ℕ) → with_id o (is ++ js) ≡ with_id o is ++ js
with_id-append none is js = refl
with_id-append (some id) is js = refl

pub ids-append : (rs ss : List Record) → ids (rs ++ ss) ≡ ids rs ++ ids ss
ids-append [] ss = refl
ids-append (r ∷ rs) ss =
    ap (with_id r.event_id) (ids-append rs ss) ∙ with_id-append r.event_id (ids rs) (ids ss)

moved : (o : Option ℕ) (is js : List ℕ) → Perm (is ++ with_id o js) (with_id o (is ++ js))
moved none is js = Perm.refl _
moved (some id) is js = perm_middle is js

-- A record may move to the front.
ids_middle :
    (before : List Record) (r : Record) (after : List Record)
    → Perm (ids (before ++ r ∷ after)) (ids (r ∷ (before ++ after)))
ids_middle before r after =
    rw (ids-append before (r ∷ after), ids-append before after)
      (moved r.event_id (ids before) (ids after))

last_ids :
    (rs : List Record) (r : Record) (is : List ℕ)
    → ids (rs ++ r ∷ []) ++ is ≡ ids rs ++ with_id r.event_id is
last_ids rs r is =
    ap (λ js. js ++ is) (ids-append rs (r ∷ []))
    ∙ append_assoc (ids rs) (with_id r.event_id []) is
    ∙ ap (◌++◌ (ids rs)) (sym (with_id-append r.event_id [] is))

-- Writing a record that was held changes only the order of the ids.
written_ids :
    (rs before : List Record) (r : Record) (after : List Record)
    → Perm (ids (rs ++ r ∷ []) ++ ids (before ++ after)) (ids rs ++ ids (before ++ r ∷ after))
written_ids rs before r after =
    subst (λ is. Perm is (ids rs ++ ids (before ++ r ∷ after)))
      (sym (last_ids rs r (ids (before ++ after))))
      (Perm.append_left (ids rs) (Perm.symm (ids_middle before r after)))

pub record Counted (s : Racing) : Type 0 where
  pub counter : s.next_event_id ≡ s.taken % word
  pub each_once : s.taken < word → Perm (ids s.records ++ ids s.held) (down_from s.taken)

step-Counted : {s t : Racing} → Counted s → Step s t → Counted t
step-Counted {s} c (take message kind attrs) = record {
  counter = ground (arith, c.counter);
  each_once = λ h.
      let next : next_id s ≡ suc s.taken = omega (arith, c.counter, h) in
      Perm.trans (moved (some (next_id s)) (ids s.records) (ids s.held))
        (rw next (Perm.cons (suc s.taken) (c.each_once (omega (arith, h)))));
}
step-Counted {s} c (write before r after e) = record {
  counter = c.counter;
  each_once = λ h.
      Perm.trans (written_ids s.records before r after)
        (subst (λ held. Perm (ids s.records ++ ids held) (down_from s.taken)) e (c.each_once h));
}
step-Counted {s} c (say message attrs) = record {
  counter = c.counter;
  each_once = λ h. rw (ids-append s.records, append-nil (ids s.records)) (c.each_once h);
}

init-Counted : Counted idle
init-Counted = record { counter = omega arith; each_once = λ h. Perm.refl _ }

Reach-Counted : {s : Racing} → Reach s → Counted s
Reach-Counted init = init-Counted
Reach-Counted (later r step) = step-Counted (Reach-Counted r) step

-- However the goroutines interleave, after n ids were taken, and as long as the counter has not
-- wrapped around, the ids on the records that are written and on those that are held back are
-- 1, …, n, each once, in some order.
pub Reach-ids :
    (s : Racing) → Reach s → s.taken < word → Perm (ids s.records ++ ids s.held) (down_from s.taken)
Reach-ids s r h = (Reach-Counted r).each_once h

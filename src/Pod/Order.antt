-- ===== src/Pod/Order.antt =====
-- lessPod goes by namespace, owner kind, owner name and name.
use scam.Base.{◌≡◌, List, [], ◌∷◌, arith, Text, text_ltb_irrefl, text_beq_iff}
use scam.Kube.{Pod}
use scam.Sort.{lex_ltb, IsKeyed}
use scam.Pod.Owner.{ReplicaSets, pod_owner, less_pod}

-- The texts that lessPod compares, in turn.
abbrev pub sort_keys : ReplicaSets → Pod → List Text
sort_keys rs p = p.meta.namespace ∷ (pod_owner rs p).0 ∷ (pod_owner rs p).1 ∷ p.meta.name ∷ []

-- lessPod is the lexicographic order of namespace, owner kind, owner name and name.
pub less_pod-lex :
    (rs : ReplicaSets) (a b : Pod) → less_pod rs a b ≡ lex_ltb (sort_keys rs a) (sort_keys rs b)
unfolding less_pod lex_ltb
less_pod-lex rs a b =
    ground (arith, text_beq_iff a.meta.name b.meta.name, text_ltb_irrefl a.meta.name)

abbrev pub less_pod-IsKeyed : (rs : ReplicaSets) → IsKeyed (less_pod rs)
less_pod-IsKeyed rs = record { keys = sort_keys rs; less-lex = less_pod-lex rs }

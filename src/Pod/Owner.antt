-- ===== src/Pod/Owner.antt =====
-- PodOwner and lessPod.
use scam.Base.{
  Bool, false, Option, none, some, List, [], ◌∷◌, Text, codes, text_ltb, if◌then◌else◌, text_eq,
  ◌==◌,
}
use scam.Kube.{Owner, Pod, ReplicaSet}

-- The lister of ReplicaSets by namespace and name; no value where the informer is not set.
abbrev pub ReplicaSets : Type 0
ReplicaSets = Option (Text → Text → Option ReplicaSet)

abbrev pub is_controller : Owner → Bool
is_controller o = elim o.controller [ none ↦ false | some b ↦ b ]

-- The first controlling owner, or the given one.
unfoldable pub controlling : Text × Text → List Owner → Text × Text
controlling found [] = found
controlling found (o ∷ os) = if is_controller o then (o.kind, o.name) else controlling found os

abbrev pub first_owner : Text × Text → List Owner → Text × Text
first_owner found [] = found
first_owner found (o ∷ os) = (o.kind, o.name)

unfoldable pub direct_owner : List Owner → Text × Text
direct_owner os =
    let (kind, name) = controlling (codes "-", codes "-") os in
    if kind == codes "-" then first_owner (kind, name) os else (kind, name)

-- One level up, from a ReplicaSet that the lister knows.
abbrev pub owner_of_set : Text × Text → Option ReplicaSet → Text × Text
owner_of_set found none = found
owner_of_set found (some rs) = controlling found rs.meta.owner_references

abbrev pub resolve_set : ReplicaSets → Text → Text × Text → Text × Text
resolve_set none namespace found = found
resolve_set (some get) namespace (kind, name) =
    if kind == codes "ReplicaSet"
    then owner_of_set (kind, name) (get namespace name)
    else (kind, name)

unfoldable pub pod_owner : ReplicaSets → Pod → Text × Text
pod_owner rs p = resolve_set rs p.meta.namespace (direct_owner p.meta.owner_references)

unfoldable pub less_pod : ReplicaSets → Pod → Pod → Bool
less_pod rs a b =
    let (ak, an) = pod_owner rs a in
    let (bk, bn) = pod_owner rs b in
    if a.meta.namespace == b.meta.namespace
    then if ak == bk
      then if an == bn then text_ltb a.meta.name b.meta.name else text_ltb an bn
      else text_ltb ak bk
    else text_ltb a.meta.namespace b.meta.namespace

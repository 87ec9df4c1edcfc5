-- ===== src/Discovery/Highest.antt =====
-- The discovery picks the highest ranked version in which a resource is served, in whatever order
-- it asks for them.
use mathlib.Core.List.{Perm}
use scam.Base.{
  ℕ, max, ◌≤◌, ◌≡◌, ◌∙◌, sym, inl, inr, Bool, ◌&&◌, ◌||◌, List, [], ◌∷◌, ◌++◌, map, arith, Text,
  codes, text_beq, text_beq_iff, Bool-cases, if◌then◌else◌, contains, text_eq, All, In,
}
use scam.Sort.Laws.{sort_slice-perm}
use scam.Discovery.{
  Served, Best, rank_of, resources_of, by_resource, gw_api_group, gw_api_version_rank, is_watched,
  gateway_versions, discover_gateway_api, traefik_group_rank, want_traefik_resource,
  traefik_version, traefik_best, discover_traefik,
}
use scam.Discovery.Entries.{IsGatewayEntry, versions-All}
use scam.Discovery.Ranks.{score, rank_of-resources}

-- Whether the server has the resource under the group and version.
abbrev pub offers : Served → (group version n : Text) → Bool
offers served group version n = contains (resources_of (served (group ++ b'/' ∷ version))) n

abbrev gateway_score : Served → Text → Text → ℕ
gateway_score served n v =
    score is_watched (gw_api_version_rank v) gw_api_group v n
      (resources_of (served (gw_api_group ++ b'/' ∷ v)))

top : Served → Text → List Text → ℕ
top served n [] = 0
top served n (v ∷ vs) = max (gateway_score served n v) (top served n vs)

rank_of-versions :
    (served : Served) (n : Text) (vs : List Text) (best : Best)
    → rank_of n (gateway_versions served vs best) ≡ max (rank_of n best) (top served n vs)
unfolding gateway_versions top
rank_of-versions served n [] best = omega arith
rank_of-versions served n (v ∷ vs) best =
    rank_of-versions served n vs _
    ∙ omega (
      arith,
      rank_of-resources is_watched (gw_api_version_rank v) gw_api_group v n
          (resources_of (served (gw_api_group ++ b'/' ∷ v))) best,
    )

-- The rank of a resource, by the versions that serve it.
abbrev pub gateway_rank : Served → Text → ℕ
gateway_rank served n =
    if is_watched n
    then if offers served gw_api_group (codes "v1") n
      then 3
      else if offers served gw_api_group (codes "v1beta1") n
      then 2
      else if offers served gw_api_group (codes "v1alpha2") n
      then 1
      else 0
    else 0

score-le : (served : Served) (n v : Text) → gateway_score served n v ≤ gateway_rank served n
unfolding gw_api_version_rank
score-le served n v = elim (Bool-cases (text_beq v (codes "v1"))) [
  | inl e ↦ at_version served n v (codes "v1") ((text_beq_iff v (codes "v1")).0 e) (ground arith)
  | inr e ↦ elim (Bool-cases (text_beq v (codes "v1beta1"))) [
    | inl f ↦
        at_version served n v (codes "v1beta1") ((text_beq_iff v (codes "v1beta1")).0 f)
          (ground arith)
    | inr f ↦ elim (Bool-cases (text_beq v (codes "v1alpha2"))) [
      | inl g ↦
          at_version served n v (codes "v1alpha2") ((text_beq_iff v (codes "v1alpha2")).0 g)
            (ground arith)
      | inr g ↦ ground (arith, e, f, g)
    ]
  ]
]
  where
    at_version :
        (served : Served) (n v w : Text)
        → v ≡ w
        → gateway_score served n w ≤ gateway_rank served n
        → gateway_score served n v ≤ gateway_rank served n
    at_version served n v w e h = rw e h

top-le : (served : Served) (n : Text) (vs : List Text) → top served n vs ≤ gateway_rank served n
unfolding top
top-le served n [] = omega arith
top-le served n (v ∷ vs) = omega (arith, score-le served n v, top-le served n vs)

top-ge :
    (served : Served) (n v : Text) (vs : List Text)
    → In v vs
    → gateway_score served n v ≤ top served n vs
unfolding top
top-ge served n v [] h = absurd h
top-ge served n v (w ∷ vs) (inl e) = rw (sym e) (omega arith)
top-ge served n v (w ∷ vs) (inr h) = omega (arith, top-ge served n v vs h)

rank-le :
    (served : Served) (n : Text) (vs : List Text)
    → In (codes "v1") vs
    → In (codes "v1beta1") vs
    → In (codes "v1alpha2") vs
    → gateway_rank served n ≤ top served n vs
unfolding gw_api_version_rank
rank-le served n vs h k j = ground (
  arith,
  top-ge served n (codes "v1") vs h,
  top-ge served n (codes "v1beta1") vs k,
  top-ge served n (codes "v1alpha2") vs j,
)

-- In whatever order the versions are tried, if v1, v1beta1 and v1alpha2 are among them: each
-- resource ends with the rank of the first of these in which it is watched and served; each entry is
-- about its own resource, with the rank of its version; and the result lists the entries.
pub discover_gateway_api_lem :
    (served : Served) (n : Text) (order : List Text)
    → In (codes "v1") order
    → In (codes "v1beta1") order
    → In (codes "v1alpha2") order
    → let best = gateway_versions served order [] in
      (rank_of n best ≡ gateway_rank served n)
      × All IsGatewayEntry best
      × Perm (discover_gateway_api served order) (map (λ e. e.1.gvr) best)
unfolding discover_gateway_api by_resource rank_of
discover_gateway_api_lem served n order h k j = (
  rank_of-versions served n order []
      ∙ omega (arith, top-le served n order, rank-le served n order h k j),
  versions-All served order [] tt,
  sort_slice-perm _ _,
)

rank_of-traefik :
    (served : Served) (group version n : Text) (best : Best)
    → rank_of n (traefik_version served group version best)
      ≡ max (rank_of n best) (
          if offers served group version n && want_traefik_resource n
          then traefik_group_rank group
          else 0)
unfolding traefik_version
rank_of-traefik served group version n best =
    rank_of-resources want_traefik_resource (traefik_group_rank group) group version n
      (resources_of (served (group ++ b'/' ∷ version))) best

-- Traefik's resources are taken from the group traefik.io, in either version, before the older
-- group: the rank that a resource ends with says so, and the result lists the entries.
pub discover_traefik_lem :
    (served : Served) (n : Text)
    → let io = codes "traefik.io" in
      let us = codes "traefik.containo.us" in
      (rank_of n (traefik_best served) ≡ (
        if want_traefik_resource n
        then if offers served io (codes "v1") n || offers served io (codes "v1alpha1") n
          then 2
          else if offers served us (codes "v1") n || offers served us (codes "v1alpha1") n
          then 1
          else 0
        else 0))
      × Perm (discover_traefik served) (map (λ e. e.1.gvr) (traefik_best served))
unfolding discover_traefik traefik_best by_resource rank_of traefik_group_rank
discover_traefik_lem served n = (
  ground (
    arith,
    rank_of-traefik served io (codes "v1") n [],
    rank_of-traefik served io (codes "v1alpha1") n first,
    rank_of-traefik served us (codes "v1") n second,
    rank_of-traefik served us (codes "v1alpha1") n third,
  ),
  sort_slice-perm _ _,
)
  where
    io : Text
    io = codes "traefik.io"

    us : Text
    us = codes "traefik.containo.us"

    first : Best
    first = traefik_version served io (codes "v1") []

    second : Best
    second = traefik_version served io (codes "v1alpha1") first

    third : Best
    third = traefik_version served us (codes "v1") second

-- ===== src/Discovery.antt =====
-- Which versions of the custom resources are watched: DiscoverGatewayAPI of
-- internal/collector/gatewayapi.go and DiscoverTraefik of internal/collector/traefik.go.
pub mod Ranks
pub mod Entries
pub mod Highest
mod Tests
use scam.Base.{
  ℕ, Bool, true, false, not, ◌||◌, ◌&&◌, Option, none, some, List, [], ◌∷◌, ◌++◌, map, Text, codes,
  text_ltb, ltb, contains, contains_byte, if◌then◌else◌, text_eq, ◌==◌,
}
use scam.Sort.{sort_slice}
use scam.Gateway.{Gvr}

-- What ServerResourcesForGroupVersion gives for a group and version: the names of the resources; no
-- value for an error, whose message is below the level of the logger, and for nil.
abbrev pub Served : Type 0
Served = Text → Option (List Text)

-- An entry of the two maps `best` and `rank`, which are written together.
pub record Found : Type 0 where
  pub rank : ℕ
  pub gvr : Gvr

abbrev pub Best : Type 0
Best = List (Text × Found)

unfoldable pub rank_of : Text → Best → ℕ
rank_of name [] = 0
rank_of name ((n, f) ∷ best) = if n == name then f.rank else rank_of name best

unfoldable pub set : Text → Found → Best → Best
set name f [] = (name, f) ∷ []
set name f ((n, g) ∷ best) = if n == name then (name, f) ∷ best else (n, g) ∷ set name f best

-- The body of the inner loop behind its guards, for a resource of the group and version.
unfoldable pub consider : ℕ → (group version name : Text) → Best → Best
consider rank group version name best =
    if ltb (rank_of name best) rank
    then set name
        (record { rank = rank; gvr = record { group = group; version = version; resource = name } })
        best
    else best

module _ (wanted : Text → Bool) (rank : ℕ) (group version : Text) where
  -- The inner loop; a resource that is not wanted is passed over.
  unfoldable pub over_resources : List Text → Best → Best
  over_resources [] best = best
  over_resources (name ∷ names) best =
      over_resources names (if wanted name then consider rank group version name best else best)

abbrev pub resources_of : Option (List Text) → List Text
resources_of none = []
resources_of (some names) = names

unfoldable pub by_resource : Best → List Gvr
by_resource best = sort_slice (λ a b. text_ltb a.resource b.resource) (map (λ e. e.1.gvr) best)

abbrev pub gw_api_group : Text
gw_api_group = codes "gateway.networking.k8s.io"

unfoldable pub gw_api_version_rank : Text → ℕ
gw_api_version_rank v =
    if v == codes "v1"
    then 3
    else if v == codes "v1beta1"
    then 2
    else if v == codes "v1alpha2"
    then 1
    else 0

abbrev pub gw_api_resources : List Text
gw_api_resources =
    codes "gateways"
    ∷ codes "gatewayclasses"
    ∷ codes "httproutes"
    ∷ codes "grpcroutes"
    ∷ codes "tlsroutes"
    ∷ codes "tcproutes"
    ∷ []

unfoldable pub want_resource : Text → Bool
want_resource name = contains gw_api_resources name

-- The two guards of the inner loop.
unfoldable pub is_watched : Text → Bool
is_watched name = if contains_byte b'/' name then false else want_resource name

-- The outer loop, over the versions in the order in which the map yields them.
unfoldable pub gateway_versions : Served → List Text → Best → Best
gateway_versions served [] best = best
gateway_versions served (v ∷ vs) best = gateway_versions served vs (
    over_resources is_watched (gw_api_version_rank v) gw_api_group v
      (resources_of (served (gw_api_group ++ b'/' ∷ v))) best)

unfoldable pub discover_gateway_api : Served → (order : List Text) → List Gvr
discover_gateway_api served order = by_resource (gateway_versions served order [])

unfoldable pub traefik_group_rank : Text → ℕ
traefik_group_rank g =
    if g == codes "traefik.io" then 2 else if g == codes "traefik.containo.us" then 1 else 0

unfoldable pub want_traefik_resource : Text → Bool
want_traefik_resource name =
    contains (codes "ingressroutes" ∷ codes "ingressroutetcps" ∷ codes "ingressrouteudps" ∷ []) name

-- One turn of the two outer loops.
unfoldable pub traefik_version : Served → (group version : Text) → Best → Best
traefik_version served group version best =
    over_resources want_traefik_resource (traefik_group_rank group) group version
      (resources_of (served (group ++ b'/' ∷ version))) best

unfoldable pub traefik_best : Served → Best
traefik_best served =
    let io = codes "traefik.io" in
    let us = codes "traefik.containo.us" in
    traefik_version served us (codes "v1alpha1") (
      traefik_version served us (codes "v1")
        (traefik_version served io (codes "v1alpha1") (traefik_version served io (codes "v1") [])))

unfoldable pub discover_traefik : Served → List Gvr
discover_traefik served = by_resource (traefik_best served)

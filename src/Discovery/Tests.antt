-- ===== src/Discovery/Tests.antt =====
-- A server with two versions of the Gateway API, and the theorems at it.
use mathlib.Core.List.{Perm}
use scam.Base.{
  ◌≡◌, refl, inl, inr, none, some, List, [], ◌∷◌, map, Text, codes, contains, if◌then◌else◌,
  text_eq, ◌==◌, All,
}
use scam.Discovery.{
  Served, rank_of, set, consider, over_resources, gateway_versions, discover_gateway_api,
  gw_api_version_rank, is_watched, want_resource,
}
use scam.Discovery.Entries.{IsGatewayEntry}
use scam.Discovery.Highest.{gateway_rank, discover_gateway_api_lem}

abbrev served : Served
served gv =
    if gv == codes "gateway.networking.k8s.io/v1"
    then some (codes "gateways" ∷ codes "gateways/status" ∷ [])
    else if gv == codes "gateway.networking.k8s.io/v1beta1"
    then some (codes "gateways" ∷ codes "httproutes" ∷ [])
    else if gv == codes "traefik.io/v1alpha1"
    then some (codes "ingressroutes" ∷ [])
    else none

abbrev order : List Text
order = codes "v1beta1" ∷ codes "v1alpha2" ∷ codes "v1" ∷ []

gateways_test : rank_of (codes "gateways") (gateway_versions served order []) ≡ 3
unfolding gateway_versions over_resources consider set rank_of gw_api_version_rank is_watched
    want_resource contains
gateways_test = refl

discover_gateway_api_lem_example :
    (rank_of (codes "httproutes") (gateway_versions served order [])
      ≡ gateway_rank served (codes "httproutes"))
    × All IsGatewayEntry (gateway_versions served order [])
    × Perm
        (discover_gateway_api served order)
        (map (λ e. e.1.gvr) (gateway_versions served order []))
discover_gateway_api_lem_example =
    discover_gateway_api_lem served (codes "httproutes") order (inr (inr (inl refl))) (inl refl)
      (inr (inl refl))

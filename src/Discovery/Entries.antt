-- ===== src/Discovery/Entries.antt =====
-- What the entries of the maps hold, whatever the server answers.
use scam.Base.{
  ℕ, ◌≡◌, refl, inl, inr, Bool, List, [], ◌∷◌, ◌++◌, Text, text_beq, Bool-cases, ltb, text_eq, All,
}
use scam.Discovery.{
  Served, Found, Best, rank_of, set, consider, over_resources, resources_of, gw_api_group,
  gw_api_version_rank, is_watched, gateway_versions,
}

-- An entry is about its own resource, and its rank is that of its version.
abbrev pub IsGatewayEntry : Text × Found → Type 0
IsGatewayEntry (n, f) =
    (f.gvr.resource ≡ n)
    × (f.gvr.group ≡ gw_api_group)
    × (f.rank ≡ gw_api_version_rank f.gvr.version)

set-All :
    (P : Text × Found → Type 0) (n : Text) (f : Found) (best : Best)
    → P (n, f)
    → All P best
    → All P (set n f best)
unfolding set
set-All P n f [] h k = (h, tt)
set-All P n f ((m, g) ∷ best) h (j, k) = elim (Bool-cases (text_beq m n)) [
  | inl e ↦ rw e (h, k)
  | inr e ↦ rw e (j, set-All P n f best h k)
]

consider-All :
    (P : Text × Found → Type 0) (rank : ℕ) (group version n : Text) (best : Best)
    → P (n, record { rank = rank; gvr = record { group = group; version = version; resource = n } })
    → All P best
    → All P (consider rank group version n best)
unfolding consider
consider-All P rank group version n best h k = elim (Bool-cases (ltb (rank_of n best) rank)) [
  | inl e ↦ rw e (set-All P n _ best h k)
  | inr e ↦ rw e k
]

resources-All :
    (P : Text × Found → Type 0) (wanted : Text → Bool) (rank : ℕ) (group version : Text)
    → ((n : Text)
        → P (
          n,
          record { rank = rank; gvr = record { group = group; version = version; resource = n } },
        ))
    → (names : List Text) (best : Best) → All P best
    → All P (over_resources wanted rank group version names best)
unfolding over_resources
resources-All P wanted rank group version h [] best k = k
resources-All P wanted rank group version h (n ∷ names) best k = elim (Bool-cases (wanted n)) [
  | inl e ↦ rw e (
      resources-All P wanted rank group version h names _
        (consider-All P rank group version n best (h n) k))
  | inr e ↦ rw e (resources-All P wanted rank group version h names best k)
]

pub versions-All :
    (served : Served) (vs : List Text) (best : Best)
    → All IsGatewayEntry best
    → All IsGatewayEntry (gateway_versions served vs best)
unfolding gateway_versions
versions-All served [] best k = k
versions-All served (v ∷ vs) best k = versions-All served vs _ (
    resources-All IsGatewayEntry is_watched (gw_api_version_rank v) gw_api_group v
      (λ n. (refl, refl, refl)) (resources_of (served (gw_api_group ++ b'/' ∷ v))) best k)

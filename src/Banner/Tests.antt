-- ===== src/Banner/Tests.antt =====
-- A banner with a name outside ASCII, and the theorem at it.
use scam.Base.{ℕ, ◌≡◌, refl, some, List, [], ◌∷◌, ◌++◌, Text, codes, All, map}
use scam.Banner.{Facts, print_banner}
use scam.Banner.Runes.{rune_count, runes_from}
use scam.Banner.Width.{print_banner-closed}

-- The environment is "prøve", and the slug ends in a byte that starts no rune.
abbrev facts : Facts
facts = record {
  cluster_name = codes "sandbox";
  cluster_id = codes "0f3a";
  environment = codes "pr" ++ (195 ∷ 184 ∷ codes "ve");
  ror_slug = codes "t-sb" ++ 195 ∷ [];
  ror_uid = codes "0f3a";
  callcenter = [];
  version = codes "dev";
  commit = codes "unknown";
}

runes_test : map rune_count (facts.environment ∷ facts.ror_slug ∷ []) ≡ 5 ∷ 5 ∷ []
unfolding rune_count runes_from
runes_test = refl

print_banner-closed_example :
    (out : List Text) × (w : ℕ) × (print_banner facts ≡ some out) × All (λ l. rune_count l ≡ w) out
print_banner-closed_example = print_banner-closed facts

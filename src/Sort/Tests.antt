-- ===== src/Sort/Tests.antt =====
-- A sort of texts.
use scam.Base.{◌≡◌, refl, List, [], ◌∷◌, Text, codes, text_ltb}
use scam.Sort.{insert, sort_slice}

abbrev names : List Text
names = codes "web" ∷ codes "cart" ∷ codes "api" ∷ []

sort_test : sort_slice text_ltb names ≡ codes "api" ∷ codes "cart" ∷ codes "web" ∷ []
unfolding sort_slice insert
sort_test = refl

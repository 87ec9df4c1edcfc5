-- ===== src/Traefik/Distinct.antt =====
-- The hosts of a route: each once, and no other than its rules name.
use scam.Base.{List, [], ◌∷◌, ◌++◌, map, Text, codes, All, Free, text_eq}
use scam.Kube.{Unstructured}
use scam.Dynamic.{Nested, u_str, u_slice, maps}
use scam.Traefik.Hosts.{match_hosts}
use scam.Traefik.Rules.{Call, IsCall, rule_text, rule_hosts}

-- A rule: its calls of matchers, and what follows the last one.
pub record Rule : Type 0 where
  pub calls : List Call
  pub rest : Text

abbrev pub IsRule : Rule → Type 0
IsRule r = All IsCall r.calls × Free b'H' r.rest

abbrev pub texts_of : List Rule → List Text
texts_of rs = map (λ r. rule_text r.calls r.rest) rs

abbrev pub hosts_of : List Rule → List Text
hosts_of [] = []
hosts_of (r ∷ rs) = rule_hosts r.calls ++ hosts_of rs

-- The texts of the field `match` of the routes.
abbrev pub matches : Nested → Unstructured → List Text
matches lib u =
    map (λ r. u_str lib r (codes "match" ∷ []))
      (maps (u_slice lib u.object (codes "spec" ∷ codes "routes" ∷ [])))

abbrev found_in : List Text → List Text
found_in [] = []
found_in (s ∷ ss) = match_hosts s ++ found_in ss

-- ===== src/Service/Addresses.antt =====
-- The addresses of a load balancer: all that are given, in order.
use scam.Base.{
  ◌≡◌, refl, ◌∙◌, ap₂, List, [], ◌∷◌, ◌++◌, map, Text, append_assoc, append-nil, text_eq,
}
use scam.Kube.{LoadBalancer}
use scam.Service.{append_unless_empty, lb_from, lb_addresses, ingress_lb_addresses}

-- The texts that are not empty.
abbrev pub non_empty : List Text → List Text
non_empty [] = []
non_empty ([] ∷ ts) = non_empty ts
non_empty ((b ∷ t) ∷ ts) = (b ∷ t) ∷ non_empty ts

append-non_empty :
    (out : List Text) (t : Text) (ts : List Text)
    → append_unless_empty out t ++ non_empty ts ≡ out ++ non_empty (t ∷ ts)
append-non_empty out [] ts = refl
append-non_empty out (b ∷ t) ts = append_assoc out _ _

lb_from_lem :
    (ips hosts : List Text) (lbs : List LoadBalancer)
    → lb_from ips hosts lbs
      ≡ (ips ++ non_empty (map (λ lb. lb.ip) lbs), hosts ++ non_empty (map (λ lb. lb.hostname) lbs))
unfolding lb_from
lb_from_lem ips hosts [] = rw (append-nil ips, append-nil hosts)
lb_from_lem ips hosts (lb ∷ lbs) =
    lb_from_lem (append_unless_empty ips lb.ip) (append_unless_empty hosts lb.hostname) lbs
    ∙ ap₂ (λ a b. (a, b)) (append-non_empty ips lb.ip _) (append-non_empty hosts lb.hostname _)

-- Both address functions return the addresses and the host names that are not empty, in order.
pub lb_addresses_lem :
    (lbs : List LoadBalancer)
    → (lb_addresses lbs
        ≡ (non_empty (map (λ lb. lb.ip) lbs), non_empty (map (λ lb. lb.hostname) lbs)))
      × (ingress_lb_addresses lbs ≡ lb_addresses lbs)
unfolding lb_addresses ingress_lb_addresses
lb_addresses_lem lbs = (lb_from_lem [] [] lbs, refl)

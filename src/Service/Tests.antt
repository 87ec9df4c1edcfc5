-- ===== src/Service/Tests.antt =====
-- The addresses of a sample load balancer.
use scam.Base.{◌≡◌, refl, List, [], ◌∷◌, codes}
use scam.Kube.{LoadBalancer}
use scam.Service.{lb_from, lb_addresses}

abbrev balancers : List LoadBalancer
balancers =
    record { ip = codes "10.0.0.1"; hostname = [] }
    ∷ record { ip = []; hostname = codes "lb.io" }
    ∷ []

addresses_test : lb_addresses balancers ≡ (codes "10.0.0.1" ∷ [], codes "lb.io" ∷ [])
unfolding lb_addresses lb_from
addresses_test = refl

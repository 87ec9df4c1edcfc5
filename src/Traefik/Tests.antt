-- ===== src/Traefik/Tests.antt =====
-- The hosts of a sample route.
use scam.Base.{◌≡◌, refl, [], ◌∷◌, List, Text, codes, unique_from, contains, text_eq}
use scam.Kube.{Unstructured, text, slice, object, nil, cons, end, field}
use scam.Dynamic.{maps}
use scam.Dynamic.Sample.{sample, plain_meta, walk, find}
use scam.Image.{cut_first}
use scam.Traefik.{all_hosts, extract_traefik_hosts}
use scam.Traefik.Hosts.{match_hosts, host_calls, hosts_in, backticked, after_matcher}
use scam.Traefik.Rules.{Arg, host_plain}
use scam.Traefik.Distinct.{Rule}

-- A route that names one host twice.
abbrev route : Unstructured
route = record {
  meta = plain_meta (codes "shop") (codes "web");
  object =
      field (codes "spec")
        (object (
          field (codes "routes")
            (slice (
              cons
                (object
                  (field (codes "match") (text (codes "Host(`a.io`) || Host(`b.io`,`a.io`)")) end))
                nil))
            end))
        end;
}

hosts_test : extract_traefik_hosts sample route ≡ codes "a.io" ∷ codes "b.io" ∷ []
unfolding extract_traefik_hosts all_hosts maps walk find match_hosts host_calls hosts_in backticked
    after_matcher cut_first unique_from contains
hosts_test = refl

abbrev arg : Text → Text → Arg
arg before host = record { before = before; host = host }

-- The same rule, by its calls.
abbrev rules : List Rule
rules =
    record {
      calls =
          record { gap = []; matcher = host_plain; args = arg [] (codes "a.io") ∷ []; close = [] }
          ∷ record {
            gap = codes " || ";
            matcher = host_plain;
            args = arg [] (codes "b.io") ∷ arg (codes ",") (codes "a.io") ∷ [];
            close = [];
          }
          ∷ [];
      rest = [];
    }
    ∷ []

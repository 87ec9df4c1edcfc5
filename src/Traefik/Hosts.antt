-- ===== src/Traefik/Hosts.antt =====
-- The matches of `hostMatcherRe` and `backtickedRe` of internal/collector/traefik.go, over bytes.
use scam.Base.{
  ℕ, zero, suc, ◌≡◌, refl, Option, none, some, List, [], ◌∷◌, ◌++◌, Text, codes, length,
  after_prefix, text_eq,
}
use scam.Image.{cut_first}

abbrev or_else : Option Text → Option Text → Option Text
or_else (some a) o = some a
or_else none o = o

-- What stands behind a host matcher and its "(", where one begins.
unfoldable pub after_matcher : Text → Option Text
after_matcher s = or_else (after_prefix (codes "HostSNI(") s) (
    or_else (after_prefix (codes "HostHeader(") s)
      (or_else (after_prefix (codes "HostRegexp(") s) (after_prefix (codes "Host(") s)))

-- The arguments of a matcher that begins here, and what stands behind its ")".
abbrev call_here : Text → Option (Text × Text)
call_here s = elim (after_matcher s) [ none ↦ none | some args ↦ cut_first b')' args ]

abbrev pub tail_of : Text → Text
tail_of [] = []
tail_of (b ∷ s) = s

-- The first group of each match of `hostMatcherRe`, from left to right.
unfoldable pub host_calls : ℕ → Text → List Text
host_calls zero s = []
host_calls (suc f) [] = []
host_calls (suc f) (b ∷ s) = elim (call_here (b ∷ s)) [
  | none ↦ host_calls f s
  | some (args, rest) ↦ args ∷ host_calls f rest
]

-- The first group of each match of `backtickedRe`: a text between backticks that is not empty. A
-- backtick that another one follows opens no match.
unfoldable pub backticked : ℕ → Text → List Text
backticked zero s = []
backticked (suc f) s = elim (cut_first b'`' s) [
  | none ↦ []
  | some (before, rest) ↦ elim (cut_first b'`' rest) [
    | none ↦ []
    | some ([], after) ↦ backticked f rest
    | some (b ∷ h, after) ↦ (b ∷ h) ∷ backticked f after
  ]
]

unfoldable pub hosts_in : List Text → List Text
hosts_in [] = []
hosts_in (call ∷ calls) = backticked (suc (length call)) call ++ hosts_in calls

-- The hosts of one match; an empty one has none.
unfoldable pub match_hosts : Text → List Text
match_hosts s = hosts_in (host_calls (length s) s)

match_test :
    match_hosts (codes "Host(`a.io`, `b.io`) && PathPrefix(`/x`) || HostSNI(`*`)")
    ≡ codes "a.io" ∷ codes "b.io" ∷ codes "*" ∷ []
unfolding match_hosts host_calls hosts_in backticked after_matcher cut_first
match_test = refl

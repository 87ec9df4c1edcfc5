-- ===== src/Identity/Tests.antt =====
-- A cluster whose slug is not its uid, and the theorems at it.
use scam.Base.{
  ℕ, ◌≤◌, ◌<◌, ◌⊎◌, Option, none, some, ◌≡◌, ◌≢◌, refl, true, false, [], ◌∷◌, arith, Text, codes,
  text_beq, text_beq_iff,
}
use scam.Capture.Trim.{trim_space}
use scam.Samples.{empty_log}
use scam.Identity.{Setting, attrs_of, start, on_round, rounds, next_delay, ror_retry_interval}
use scam.Identity.Lookup.{
  RorIdentity, no_identity, identity_beq, secret, self, unanswered, Round, resolve_ror_api_key,
}
use scam.Identity.Kept.{IsKnown, rounds-IsKnown, on_round-cluster_failed}
use scam.Identity.Refresh.{next_delay_lem}
use scam.Interval.{is_off, resolve_ror_refresh_interval}
use scam.Base.Duration.{minute, word}

-- Each variable is set to "key".
abbrev setting : Setting
setting = record {
  env = λ name. codes "key";
  build = record { version = codes "dev"; commit = codes "unknown" };
  endpoint = codes "https://ror.io/";
  cluster_id = codes "uid-1";
}

abbrev known : RorIdentity
known = record {
  uid = codes "0f3a";
  slug = codes "t-sb-001";
  name = codes "sandbox";
  environment = codes "test";
}

abbrev lost : Round
lost = record {
  secret = secret [];
  self = self (codes "Cluster") true (codes "0f3a");
  cluster = unanswered (codes "timeout");
}

differ : (s t : Text) → text_beq s t ≡ false → s ≢ t
differ s t h = ground (arith, text_beq_iff s t)

known-IsKnown : IsKnown known
known-IsKnown = (differ (codes "0f3a") [] refl, differ (codes "t-sb-001") [] refl)

rounds-IsKnown_example :
    ((rounds setting (start setting known) (lost ∷ lost ∷ []) empty_log).0.cluster_attrs
      ≡ attrs_of setting
          (rounds setting (start setting known) (lost ∷ lost ∷ []) empty_log).0.current)
    × IsKnown (rounds setting (start setting known) (lost ∷ lost ∷ []) empty_log).0.current
rounds-IsKnown_example = rounds-IsKnown setting known (lost ∷ lost ∷ []) empty_log known-IsKnown

on_round-cluster_failed_example :
    (on_round setting (start setting known) lost empty_log).0.current
    ≡ record { uid = codes "0f3a"; slug = codes "0f3a"; name = []; environment = [] }
unfolding start resolve_ror_api_key trim_space
on_round-cluster_failed_example =
    on_round-cluster_failed setting (start setting known) (secret []) (codes "Cluster")
      (codes "0f3a") (codes "timeout") empty_log (differ (codes "key") [] refl)
      (differ (codes "0f3a") [] refl) refl (differ (codes "t-sb-001") (codes "0f3a") refl)

-- Only one text parses, as two hours.
abbrev parse : Text → Option ℕ
parse raw = elim (text_beq raw (codes "2h")) [ true ↦ some 7200000000000 | false ↦ none ]

parse-lt : (raw : Text) (d : ℕ) → parse raw ≡ some d → d < word
parse-lt raw d e = ground arith

next_delay_lem_example :
    let interval = (resolve_ror_refresh_interval parse (codes "2h") empty_log).0 in
    let next = next_delay interval no_identity in
    ((interval ≡ 0) × (is_off (trim_space (codes "2h")) ≡ true))
    ⊎ ((minute ≤ next)
        × (next ≤ interval)
        × ((identity_beq no_identity no_identity ≡ false) ⊎ (next ≤ ror_retry_interval)))
next_delay_lem_example = next_delay_lem parse (codes "2h") empty_log no_identity parse-lt

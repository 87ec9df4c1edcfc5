-- ===== src/Interval/Tests.antt =====
-- Values of the environment, and the theorem at one.
use scam.Base.{ℕ, ◌≡◌, ◌⊎◌, refl, Option, some, true, Text, codes}
use scam.Capture.Trim.{trim_space}
use scam.Samples.{empty_log}
use scam.Interval.{
  is_off, folded, lower, IsLong, resolve_snapshot_interval, resolve_ror_refresh_interval,
  resolve_intervals_lem,
}

-- Every text counts as half an hour.
abbrev parse : Text → Option ℕ
parse raw = some 1800000000000

off_test : is_off (codes "Disabled") ≡ true
unfolding folded lower
off_test = refl

resolve_intervals_lem_example :
    (((resolve_snapshot_interval parse (codes "30m") empty_log).0 ≡ 0)
        × (is_off (trim_space (codes "30m")) ≡ true)
      ⊎ IsLong (resolve_snapshot_interval parse (codes "30m") empty_log).0)
    × (((resolve_ror_refresh_interval parse (codes "30m") empty_log).0 ≡ 0)
          × (is_off (trim_space (codes "30m")) ≡ true)
        ⊎ IsLong (resolve_ror_refresh_interval parse (codes "30m") empty_log).0)
resolve_intervals_lem_example = resolve_intervals_lem parse (codes "30m") empty_log

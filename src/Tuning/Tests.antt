-- ===== src/Tuning/Tests.antt =====
-- Overrides as they stand in an environment, and the theorems at them.
use scam.Base.{◌≡◌, ◌<◌, refl, none, some, [], ◌∷◌, arith, Text, codes, map}
use scam.Base.Duration.{half_word}
use scam.Capture.Trim.{trim_space}
use scam.Emit.{number}
use scam.Ingress.{decimal}
use scam.Samples.{empty_log}
use scam.Tuning.{digits_from, atoi, env_int, override_warning}
use scam.Tuning.Overrides.{env_int-decimal, env_int-positive}

abbrev burst : Text
burst = codes "KUBE_CLIENT_BURST"

atoi_test :
    map atoi (
      codes "20"
      ∷ codes "+7"
      ∷ codes ""
      ∷ codes "-"
      ∷ codes "1_0"
      ∷ codes "9223372036854775808"
      ∷ [])
    ≡ some 20 ∷ some 7 ∷ none ∷ none ∷ none ∷ none ∷ []
unfolding atoi digits_from
atoi_test = refl

warned_test :
    env_int burst (codes " 0 ") 10 empty_log
    ≡ (10, override_warning burst (codes "0") (number 10) empty_log)
unfolding env_int atoi digits_from trim_space
warned_test = refl

env_int-decimal_example : env_int burst (decimal 19 20) 10 empty_log ≡ (20, empty_log)
env_int-decimal_example = env_int-decimal burst 20 10 empty_log (omega arith) (omega arith)

env_int-positive_example :
    (0 < (env_int burst (codes "-3") 10 empty_log).0)
    × ((env_int burst (codes "-3") 10 empty_log).0 < half_word)
env_int-positive_example =
    env_int-positive burst (codes "-3") 10 empty_log (omega arith) (omega arith)

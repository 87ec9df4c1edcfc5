-- ===== src/Base/Duration.antt =====
-- Go's time.Duration: an int64 of nanoseconds, kept as its 64-bit pattern.
use Prim.Native.Nat.{ℕ, ◌+◌, ◌*◌, ◌%◌, ◌<◌}
use mathlib.Core.Path.{◌≡◌}
use mathlib.Core.Bool.{Bool}
use native.Mathlib.Omega.{arith}
use scam.Base.Tests.{ltb, leb}

abbrev pub word : ℕ
word = 18446744073709551616

abbrev pub half_word : ℕ
half_word = 9223372036854775808

abbrev pub second : ℕ
second = 1000000000

abbrev pub minute : ℕ
minute = 60000000000

abbrev pub hour : ℕ
hour = 3600000000000

-- The signed comparisons: shift both patterns by half the range.
abbrev pub signed_ltb : ℕ → ℕ → Bool
signed_ltb a b = ltb ((a + half_word) % word) ((b + half_word) % word)

abbrev pub signed_leb : ℕ → ℕ → Bool
signed_leb a b = leb ((a + half_word) % word) ((b + half_word) % word)

-- Multiplication by two, with int64's wrap-around.
abbrev pub double : ℕ → ℕ
double d = (d * 2) % word

-- The patterns of the non-negative values.
abbrev pub IsNat : ℕ → Type 0
IsNat d = d < half_word

pub signed_leb_of_nat : (a b : ℕ) → IsNat a → IsNat b → signed_leb a b ≡ leb a b
signed_leb_of_nat a b ha hb = ground arith

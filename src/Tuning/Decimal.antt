-- ===== src/Tuning/Decimal.antt =====
-- Decimal text is read back as the number it shows.
use scam.Base.{
  ℕ, zero, suc, ◌+◌, ◌-◌, ◌*◌, ◌/◌, ◌%◌, ◌^◌, ◌≤◌, ◌<◌, ◌≡◌, refl, ap, false, some, [], ◌∷◌, ◌++◌,
  ◌>>=◌, arith, Text, ltb, All, All-append, lt_or_le, inl, inr,
}
use scam.Ingress.{decimal}
use scam.Tuning.{digits_from}

abbrev pub IsDigit : ℕ → Type 0
IsDigit b = (48 ≤ b) × (b ≤ 57)

decimal-none : (n : ℕ) → decimal 0 n ≡ []
unfolding decimal
decimal-none n = refl

pub decimal-small : (f n : ℕ) → n < 10 → decimal (suc f) n ≡ (48 + n) ∷ []
unfolding decimal
decimal-small f n h = ground arith

pub decimal-large :
    (f n : ℕ) → 10 ≤ n → decimal (suc f) n ≡ decimal f (n / 10) ++ (48 + n % 10) ∷ []
unfolding decimal
decimal-large f n h = let big : ltb n 10 ≡ false = ground arith in rw big refl

pub digit : (n : ℕ) → IsDigit (48 + n % 10)
digit n = (omega arith, omega arith)

pub decimal-IsDigit : (f n : ℕ) → All IsDigit (decimal f n)
decimal-IsDigit zero n = rw decimal-none tt
decimal-IsDigit (suc f) n = elim (lt_or_le n 10) [
  | inl small ↦ rw (decimal-small f n small) ((omega arith, omega arith), tt)
  | inr large ↦
      rw (decimal-large f n large)
        (All-append IsDigit (decimal f (n / 10)) _ (decimal-IsDigit f (n / 10)) (digit n, tt))
]

digits_from-append :
    (n : ℕ) (s : Text) (b : ℕ)
    → IsDigit b
    → digits_from n (s ++ b ∷ []) ≡ (digits_from n s >>= λ m. some (m * 10 + (b - 48)))
unfolding digits_from
digits_from-append n [] b h = ground arith
digits_from-append n (c ∷ s) b h = ground (arith, digits_from-append (n * 10 + (c - 48)) s b h)

digits_from-one : (n : ℕ) → n < 10 → digits_from 0 ((48 + n) ∷ []) ≡ some n
unfolding digits_from
digits_from-one n h = ground arith

pow : (f : ℕ) → 10 ^ suc f ≡ 10 * 10 ^ f
pow f = omega arith

-- As many digits as the number has are read as that number.
pub digits-decimal : (f n : ℕ) → n < 10 ^ suc f → digits_from 0 (decimal (suc f) n) ≡ some n
digits-decimal zero n h = rw (decimal-small 0 n (omega arith)) (digits_from-one n (omega arith))
digits-decimal (suc f) n h =
    let power : 10 ^ suc (suc f) ≡ 10 * 10 ^ suc f = pow (suc f) in
    elim (lt_or_le n 10) [
      | inl small ↦ rw (decimal-small (suc f) n small) (digits_from-one n small)
      | inr large ↦
          rw
            (
              decimal-large (suc f) n large,
              digits_from-append 0 (decimal (suc f) (n / 10)) _ (digit n),
              digits-decimal f (n / 10) (omega arith),
            )
            (ap some (omega arith))
    ]

-- ===== src/Tuning/Overrides.antt =====
-- What the overrides come to: a printed number is taken, and nothing but a positive one is.
use mathlib.Core.List.{reverse, reverse-append, reverse-reverse}
use scam.Base.{
  ℕ, zero, suc, ◌+◌, ◌/◌, ◌%◌, ◌<◌, ◌≡◌, refl, sym, ap, ◌∙◌, Bool, true, false, ◌&&◌, ◌||◌, Option,
  none, some, List, [], ◌∷◌, ◌++◌, arith, Text, ltb, All, lt_or_le, Bool-cases, Option-cases, inl,
  inr, map, length, text_beq, nat_beq,
}
use scam.Base.Duration.{half_word, word, signed_leb}
use scam.Capture.Trim.{strip_one, strip, spaces, trim_space, trim_left, trim_right}
use scam.Emit.{Log}
use scam.Ingress.{decimal}
use scam.Tuning.{digits_from, digits, atoi, non_negative, negative, env_int}
use scam.Tuning.Decimal.{
  IsDigit, decimal-IsDigit, decimal-small, decimal-large, digit, digits-decimal,
}

-- No pattern starts with a digit.
abbrev undigited : List Text → Bool
undigited [] = true
undigited ([] ∷ ps) = false
undigited ((c ∷ p) ∷ ps) = (ltb c 48 || ltb 57 c) && undigited ps

strip_one-kept :
    (ps : List Text) (b : ℕ) (s : Text)
    → IsDigit b
    → undigited ps ≡ true
    → strip_one ps (b ∷ s) ≡ none
unfolding strip_one
strip_one-kept [] b s d h = refl
strip_one-kept ([] ∷ ps) b s d h = cc
strip_one-kept ((c ∷ p) ∷ ps) b s d h =
    let other : nat_beq c b ≡ false = ground arith in
    rw (strip_one, other) (strip_one-kept ps b s d (ground arith))

strip-kept :
    (f : ℕ) (ps : List Text) (b : ℕ) (s : Text)
    → IsDigit b
    → undigited ps ≡ true
    → strip f ps (b ∷ s) ≡ b ∷ s
unfolding strip
strip-kept zero ps b s d h = refl
strip-kept (suc f) ps b s d h = rw (strip, strip_one-kept ps b s d h) refl

trim_left-digit : (b : ℕ) (s : Text) → IsDigit b → trim_left (b ∷ s) ≡ b ∷ s
unfolding trim_left
trim_left-digit b s h = strip-kept (length (b ∷ s)) spaces b s h refl

trim_right-digit : (s : Text) (b : ℕ) → IsDigit b → trim_right (s ++ b ∷ []) ≡ s ++ b ∷ []
unfolding trim_right
trim_right-digit s b h =
    let back : reverse (s ++ b ∷ []) ≡ b ∷ reverse s = reverse-append s (b ∷ []) in
    ap (λ t. reverse (strip (length (s ++ b ∷ [])) (map reverse spaces) t)) back
    ∙ ap reverse
        (strip-kept (length (s ++ b ∷ [])) (map reverse spaces) b (reverse s) h refl ∙ sym back)
    ∙ reverse-reverse (s ++ b ∷ [])

-- Digits are left as they are.
trim_space-digits :
    (s : Text) (b : ℕ) → All IsDigit s → IsDigit b → trim_space (s ++ b ∷ []) ≡ s ++ b ∷ []
unfolding trim_space
trim_space-digits [] b hs hb = ap trim_right (trim_left-digit b [] hb) ∙ trim_right-digit [] b hb
trim_space-digits (c ∷ s) b hs hb =
    ap trim_right (trim_left-digit c (s ++ b ∷ []) hs.0) ∙ trim_right-digit (c ∷ s) b hb

-- Decimal text ends in a digit.
decimal-last :
    (f n : ℕ) → (s : Text) × (b : ℕ) × (decimal (suc f) n ≡ s ++ b ∷ []) × All IsDigit s × IsDigit b
decimal-last f n = elim (lt_or_le n 10) [
  | inl small ↦ ([], 48 + n, decimal-small f n small, tt, (omega arith, omega arith))
  | inr large ↦ (
    decimal f (n / 10),
    48 + n % 10,
    decimal-large f n large,
    decimal-IsDigit f (n / 10),
    digit n,
  )
]

trim_space-decimal : (f n : ℕ) → trim_space (decimal (suc f) n) ≡ decimal (suc f) n
trim_space-decimal f n =
    let (s, b, same, hs, hb) = decimal-last f n in rw same (trim_space-digits s b hs hb)

decimal-first : (f n : ℕ) → (b : ℕ) × (s : Text) × (decimal (suc f) n ≡ b ∷ s) × IsDigit b
decimal-first f n = let (s, b, same, hs, hb) = decimal-last f n in first s b same hs hb
  where
    first :
        (s : Text) (b : ℕ)
        → decimal (suc f) n ≡ s ++ b ∷ []
        → All IsDigit s
        → IsDigit b
        → (c : ℕ) × (t : Text) × (decimal (suc f) n ≡ c ∷ t) × IsDigit c
    first [] b same hs hb = (b, [], same, hb)
    first (c ∷ s) b same hs hb = (c, s ++ b ∷ [], same, hs.0)

atoi-digits :
    (b m : ℕ) (s : Text)
    → IsDigit b
    → digits_from 0 (b ∷ s) ≡ some m
    → m < half_word
    → atoi (b ∷ s) ≡ some m
unfolding atoi
atoi-digits b m s h e small = ground arith

-- The decimal text of a positive int64 that is not longer than 19 digits is read as that number,
-- and nothing is logged.
pub env_int-decimal :
    (name : Text) (n def : ℕ) (l : Log)
    → 0 < n
    → n < half_word
    → env_int name (decimal 19 n) def l ≡ (n, l)
unfolding env_int
env_int-decimal name n def l positive small =
    let (b, s, same, h) = decimal-first 18 n in
    let kept : trim_space (b ∷ s) ≡ b ∷ s = rw (← same) (trim_space-decimal 18 n) in
    let read : atoi (b ∷ s) ≡ some n =
      atoi-digits b n s h (rw (← same) (digits-decimal 18 n (omega arith))) small in
    rw (same, kept, read) (ground arith)

non_negative-lt : (o : Option ℕ) (v : ℕ) → non_negative o ≡ some v → v < word
non_negative-lt none v e = cc
non_negative-lt (some m) v e = ground arith

negative-lt : (o : Option ℕ) (v : ℕ) → negative o ≡ some v → v < word
negative-lt none v e = cc
negative-lt (some m) v e = ground arith

atoi-lt : (s : Text) (v : ℕ) → atoi s ≡ some v → v < word
unfolding atoi
atoi-lt [] v e = cc
atoi-lt (b ∷ s) v e = elim (Bool-cases (nat_beq b b'-')) [
  | inl minus ↦ negative-lt (digits s) v (simp minus at e)
  | inr other ↦ elim (Bool-cases (nat_beq b b'+')) [
    | inl plus ↦ non_negative-lt (digits s) v (simp (other, plus) at e)
    | inr none_of ↦ non_negative-lt (digits (b ∷ s)) v (simp (other, none_of) at e)
  ]
]

-- A positive default stays one: whatever the variable holds, the override is a positive int64.
pub env_int-positive :
    (name env : Text) (def : ℕ) (l : Log)
    → 0 < def
    → def < half_word
    → let v = (env_int name env def l).0 in (0 < v) × (v < half_word)
unfolding env_int
env_int-positive name env def l h k = elim (Bool-cases (text_beq (trim_space env) [])) [
  | inl e ↦ rw e (h, k)
  | inr e ↦ elim (Option-cases (atoi (trim_space env))) [
    | inl missing ↦ rw (e, missing) (h, k)
    | inr (v, found) ↦ elim (Bool-cases (signed_leb v 0)) [
      | inl low ↦ rw (e, found, low) (h, k)
      | inr high ↦
          rw (e, found, high)
            (
              ground (arith, atoi-lt (trim_space env) v found),
              ground (arith, atoi-lt (trim_space env) v found),
            )
    ]
  ]
]

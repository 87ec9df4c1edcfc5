-- ===== src/Banner/Runes.antt =====
-- utf8.RuneCountInString on byte strings, as cmd/scam/main.go measures the lines of its banner.
use scam.Base.{
  ℕ, zero, suc, ◌+◌, ◌≤◌, ◌<◌, ◌≡◌, refl, ap, Bool, false, ◌&&◌, [], ◌∷◌, ◌++◌, arith, Text, leb,
  length, drop, length-drop, if◌then◌else◌, nat_eq, ◌==◌,
}

-- A byte of the string; 0, which continues no rune, behind its end.
abbrev pub byte_at : ℕ → Text → ℕ
byte_at i [] = 0
byte_at zero (b ∷ s) = b
byte_at (suc i) (b ∷ s) = byte_at i s

abbrev within : ℕ → ℕ → ℕ → Bool
within low high b = leb low b && leb b high

abbrev continues : ℕ → Bool
continues b = within 128 191 b

-- The bytes that may follow the first byte of a rune of three or four bytes.
abbrev second_of : ℕ → ℕ → Bool
second_of first b =
    if first == 224
    then within 160 191 b
    else if first == 237
    then within 128 159 b
    else if first == 240
    then within 144 191 b
    else if first == 244
    then within 128 143 b
    else continues b

abbrev later_bytes : ℕ → Text → ℕ
later_bytes b s =
    if within 194 223 b && continues (byte_at 0 s)
    then 1
    else if within 224 239 b && second_of b (byte_at 0 s) && continues (byte_at 1 s)
    then 2
    else if within 240 244 b
        && second_of b (byte_at 0 s)
        && continues (byte_at 1 s)
        && continues (byte_at 2 s)
    then 3
    else 0

unfoldable pub runes_from : ℕ → Text → ℕ
runes_from f [] = 0
runes_from zero (b ∷ s) = 0
runes_from (suc f) (b ∷ s) = suc (runes_from f (drop (later_bytes b s) s))

-- Each byte that starts no valid rune counts as one. A rune takes one byte at least, so the length
-- is fuel enough.
unfoldable pub rune_count : Text → ℕ
rune_count s = runes_from (length s) s

later_bytes-le : (b : ℕ) (s : Text) → later_bytes b s ≤ length s
later_bytes-le b [] = ground arith
later_bytes-le b (c ∷ []) = ground arith
later_bytes-le b (c ∷ d ∷ []) = ground arith
later_bytes-le b (c ∷ d ∷ e ∷ s) = ground arith

-- Fuel at least the length does not matter.
runes_from-enough :
    (f g : ℕ) (s : Text) → length s ≤ f → length s ≤ g → runes_from f s ≡ runes_from g s
unfolding runes_from
runes_from-enough f g [] hf hg = refl
runes_from-enough zero g (b ∷ s) hf hg = absurd (omega arith)
runes_from-enough (suc f) zero (b ∷ s) hf hg = absurd (omega arith)
runes_from-enough (suc f) (suc g) (b ∷ s) hf hg =
    let shorter = length-drop (later_bytes b s) s in
    ap suc (
      runes_from-enough f g (drop (later_bytes b s) s) (omega (arith, shorter, hf))
        (omega (arith, shorter, hg)))

-- A string is its first rune and the rest.
pub rune_count_next :
    (b : ℕ) (s : Text) → rune_count (b ∷ s) ≡ suc (rune_count (drop (later_bytes b s) s))
unfolding rune_count runes_from
rune_count_next b s =
    let shorter = length-drop (later_bytes b s) s in
    ap suc (
      runes_from-enough (length s) (length (drop (later_bytes b s) s)) _ (omega (arith, shorter))
        (omega arith))

-- A byte below 128 continues no rune, and neither does the end of the string.
low_byte : (b c : ℕ) → c < 128 → (continues c ≡ false) × (second_of b c ≡ false)
low_byte b c h = (ground arith, ground arith)

later_bytes-append : (b c : ℕ) (s t : Text) → c < 128 → later_bytes b (s ++ c ∷ t) ≡ later_bytes b s
later_bytes-append b c [] t h = ground (arith, low_byte b c h, low_byte b 0 (omega arith))
later_bytes-append b c (d ∷ []) t h = ground (arith, low_byte d c h)
later_bytes-append b c (d ∷ e ∷ []) t h = ground (arith, low_byte e c h)
later_bytes-append b c (d ∷ e ∷ f ∷ s) t h = refl

pub rune_count_nil : rune_count [] ≡ 0
unfolding rune_count runes_from
rune_count_nil = refl

drop-append : (k : ℕ) (s t : Text) → k ≤ length s → drop k (s ++ t) ≡ drop k s ++ t
drop-append zero s t h = refl
drop-append (suc k) [] t h = absurd (omega arith)
drop-append (suc k) (b ∷ s) t h = drop-append k s t (omega arith)

append_within :
    (f : ℕ) (s : Text) (c : ℕ) (t : Text)
    → length s ≤ f
    → c < 128
    → rune_count (s ++ c ∷ t) ≡ rune_count s + rune_count (c ∷ t)
append_within f [] c t hf h = rw rune_count_nil (omega arith)
append_within zero (b ∷ s) c t hf h = absurd (omega arith)
append_within (suc f) (b ∷ s) c t hf h =
    let k = later_bytes b s in
    let rest = append_within f (drop k s) c t (omega (arith, length-drop k s)) h in
    rw
      (
        rune_count_next b (s ++ c ∷ t),
        rune_count_next b s,
        later_bytes-append b c s t h,
        drop-append k s (c ∷ t) (later_bytes-le b s),
        rest,
      )
      (omega arith)

-- A byte below 128 starts a rune wherever it stands: the runes in front of it are counted as if
-- the string ended there.
pub rune_count-append :
    (s : Text) (c : ℕ) (t : Text)
    → c < 128
    → rune_count (s ++ c ∷ t) ≡ rune_count s + rune_count (c ∷ t)
rune_count-append s c t h = append_within (length s) s c t (omega arith) h

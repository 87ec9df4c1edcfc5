-- ===== src/Capture/Trim.antt =====
-- bytes.TrimSpace: Unicode white space, in its UTF-8 encodings, is taken off both ends.
use mathlib.Core.List.{reverse}
use scam.Base.{
  ℕ, zero, suc, ◌<◌, ◌≤◌, ◌≡◌, refl, Option, none, some, List, [], ◌∷◌, map, arith, Text, codes,
  length, after_prefix, Option-cases, inl, inr,
}

-- The encodings of the characters for which unicode.IsSpace holds.
abbrev pub spaces : List Text
spaces =
    (9 ∷ [])
    ∷ (10 ∷ [])
    ∷ (11 ∷ [])
    ∷ (12 ∷ [])
    ∷ (13 ∷ [])
    ∷ (32 ∷ [])
    ∷ (0xc2 ∷ 0x85 ∷ [])
    ∷ (0xc2 ∷ 0xa0 ∷ [])
    ∷ (0xe1 ∷ 0x9a ∷ 0x80 ∷ [])
    ∷ (0xe2 ∷ 0x80 ∷ 0x80 ∷ [])
    ∷ (0xe2 ∷ 0x80 ∷ 0x81 ∷ [])
    ∷ (0xe2 ∷ 0x80 ∷ 0x82 ∷ [])
    ∷ (0xe2 ∷ 0x80 ∷ 0x83 ∷ [])
    ∷ (0xe2 ∷ 0x80 ∷ 0x84 ∷ [])
    ∷ (0xe2 ∷ 0x80 ∷ 0x85 ∷ [])
    ∷ (0xe2 ∷ 0x80 ∷ 0x86 ∷ [])
    ∷ (0xe2 ∷ 0x80 ∷ 0x87 ∷ [])
    ∷ (0xe2 ∷ 0x80 ∷ 0x88 ∷ [])
    ∷ (0xe2 ∷ 0x80 ∷ 0x89 ∷ [])
    ∷ (0xe2 ∷ 0x80 ∷ 0x8a ∷ [])
    ∷ (0xe2 ∷ 0x80 ∷ 0xa8 ∷ [])
    ∷ (0xe2 ∷ 0x80 ∷ 0xa9 ∷ [])
    ∷ (0xe2 ∷ 0x80 ∷ 0xaf ∷ [])
    ∷ (0xe2 ∷ 0x81 ∷ 0x9f ∷ [])
    ∷ (0xe3 ∷ 0x80 ∷ 0x80 ∷ [])
    ∷ []

-- Takes one of the patterns off the front. No pattern is a prefix of another.
unfoldable pub strip_one : List Text → Text → Option Text
strip_one [] s = none
strip_one (p ∷ ps) s = elim (after_prefix p s) [ none ↦ strip_one ps s | some r ↦ some r ]

unfoldable pub strip : ℕ → List Text → Text → Text
unfolding strip_one
strip zero ps s = s
strip (suc f) ps s = elim (strip_one ps s) [ none ↦ s | some r ↦ strip f ps r ]

unfoldable pub trim_left : Text → Text
unfolding strip
trim_left s = strip (length s) spaces s

unfoldable pub trim_right : Text → Text
unfolding strip
trim_right s = reverse (strip (length s) (map reverse spaces) (reverse s))

unfoldable pub trim_space : Text → Text
unfolding trim_left trim_right
trim_space s = trim_right (trim_left s)

trim_space_test : trim_space (codes " {\"a\": 1} ") ≡ codes "{\"a\": 1}"
unfolding trim_space
trim_space_test = refl

abbrev AllNonEmpty : List Text → Type 0
AllNonEmpty [] = Unit
AllNonEmpty (p ∷ ps) = (0 < length p) × AllNonEmpty ps

after_prefix-length : (p s r : Text) → after_prefix p s ≡ some r → length r ≤ length s
after_prefix-length [] s r h = ground arith
after_prefix-length (a ∷ p) [] r h = cc
after_prefix-length (a ∷ p) (b ∷ s) r h = ground (arith, after_prefix-length p s r)

after_prefix-shorter :
    (p s r : Text) → 0 < length p → after_prefix p s ≡ some r → length r < length s
after_prefix-shorter [] s r n h = absurd (omega arith)
after_prefix-shorter (a ∷ p) [] r n h = cc
after_prefix-shorter (a ∷ p) (b ∷ s) r n h = ground (arith, after_prefix-length p s r)

strip_one-shorter :
    (ps : List Text) (s r : Text) → AllNonEmpty ps → strip_one ps s ≡ some r → length r < length s
unfolding strip_one
strip_one-shorter [] s r n h = cc
strip_one-shorter (p ∷ ps) s r n h =
    ground (arith, after_prefix-shorter p s r, strip_one-shorter ps s r n.1)

-- With as much fuel as the text is long, nothing is left to take off.
strip_done :
    (f : ℕ) (ps : List Text) (s : Text)
    → AllNonEmpty ps
    → length s ≤ f
    → strip_one ps (strip f ps s) ≡ none
unfolding strip
strip_done zero ps s n h = elim (Option-cases (strip_one ps s)) [
  | inl e ↦ e
  | inr (r, e) ↦ absurd (omega (arith, strip_one-shorter ps s r n e))
]
strip_done (suc f) ps s n h = elim (Option-cases (strip_one ps s)) [
  | inl e ↦ rw (e, strip) e
  | inr (r, e) ↦
      let k = strip_one-shorter ps s r n e in rw (e, strip) (strip_done f ps r n (omega arith))
]

-- Trimming leaves no white space in front, however much there was.
pub trim_left_done : (s : Text) → strip_one spaces (trim_left s) ≡ none
unfolding trim_left
trim_left_done s = strip_done (length s) spaces s (omega arith) (omega arith)

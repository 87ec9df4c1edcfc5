-- ===== src/Tuning.antt =====
-- The overrides of client-go's limits: envInt and envFloat32 of cmd/scam/main.go, with
-- strconv.Atoi on a 64-bit platform. strconv.ParseFloat is a parameter.
mod Decimal
mod Overrides
mod Tests
use scam.Base.{
  ℕ, ◌+◌, ◌-◌, ◌*◌, ◌%◌, ◌&&◌, Option, none, some, Bool, List, [], ◌∷◌, Text, codes, leb, ltb,
  if◌then◌else◌, text_eq, nat_eq, ◌==◌,
}
use scam.Base.Duration.{word, half_word, signed_leb}
use scam.Capture.Trim.{trim_space}
use scam.Emit.{Attr, Log, text, number, report}

unfoldable pub digits_from : ℕ → Text → Option ℕ
digits_from n [] = some n
digits_from n (b ∷ s) =
    let more = digits_from (n * 10 + (b - b'0')) s in
    if leb b'0' b && leb b b'9' then more else none

abbrev pub digits : Text → Option ℕ
digits [] = none
digits (b ∷ s) = digits_from 0 (b ∷ s)

abbrev pub non_negative : Option ℕ → Option ℕ
non_negative none = none
non_negative (some m) = if ltb m half_word then some m else none

abbrev pub negative : Option ℕ → Option ℕ
negative none = none
negative (some m) = if leb m half_word then some ((word - m) % word) else none

-- strconv.Atoi: the pattern of an int64, no value for a syntax error or a number out of range.
unfoldable pub atoi : Text → Option ℕ
atoi [] = none
atoi (b ∷ s) =
    if b == b'-'
    then negative (digits s)
    else if b == b'+'
    then non_negative (digits s)
    else non_negative (digits (b ∷ s))

abbrev pub override_warning : (name raw : Text) → Attr → Log → Log
override_warning name raw def l =
    report (codes "invalid env override, using default")
      ((codes "name", text name) ∷ (codes "value", text raw) ∷ (codes "default", def) ∷ []) l

abbrev pub positive_or :
    {A : Type 0} → (A → Bool) → A → (A → Attr) → (name raw : Text) → Option A → Log → A × Log
positive_or at_most_zero def shown name raw none l = (def, override_warning name raw (shown def) l)
positive_or at_most_zero def shown name raw (some v) l =
    if at_most_zero v then (def, override_warning name raw (shown def) l) else (v, l)

-- `env` is the variable's value.
unfoldable pub env_int : (name env : Text) → (def : ℕ) → Log → ℕ × Log
env_int name env def l =
    let raw = trim_space env in
    if raw == []
    then (def, l)
    else positive_or (λ v. signed_leb v 0) def number name raw (atoi raw) l

-- What the code does with 32-bit floating point numbers.
pub record Floats : Type 1 where
  pub Float32 : Type 0
  pub parse_float : Text → Option Float32
  pub at_most_zero : Float32 → Bool
  pub shown : Float32 → Attr

unfoldable pub env_float32 : (x : Floats) → (name env : Text) → x.Float32 → Log → x.Float32 × Log
env_float32 x name env def l =
    let raw = trim_space env in
    if raw == []
    then (def, l)
    else positive_or x.at_most_zero def x.shown name raw (x.parse_float raw) l

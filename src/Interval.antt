-- ===== src/Interval.antt =====
-- The intervals of the environment: resolveRorRefreshInterval of cmd/scam/rorself.go, and
-- resolveSnapshotInterval of internal/collector/snapshot.go, which is the same code. Durations are
-- int64 patterns.
mod Tests
use scam.Base.{
  ℕ, ◌+◌, ◌*◌, ◌≡◌, ◌⊎◌, refl, inl, inr, ◌&&◌, ◌||◌, Bool, Option, none, some, List, [], ◌∷◌, arith,
  Text, codes, leb, if◌then◌else◌, text_eq, nat_eq, ◌==◌, text_beq, Bool-cases, Option-cases, true,
  false,
}
use scam.Base.Duration.{minute, hour, signed_ltb}
use scam.Capture.Trim.{trim_space}
use scam.Emit.{Attr, Log, text, number, report}

-- Lower case for the ASCII letters.
unfoldable pub lower : ℕ → ℕ
lower b = if leb b'A' b && leb b b'Z' then b + 32 else b

-- strings.EqualFold with an ASCII word that has no "k": besides the capitals, the two bytes of
-- U+017F fold to "s".
unfoldable pub folded : Text → Text
folded [] = []
folded (b ∷ []) = lower b ∷ []
folded (b ∷ c ∷ s) =
    let long = b's' ∷ folded s in
    let rest = lower b ∷ folded (c ∷ s) in if b == 197 && c == 191 then long else rest

abbrev pub is_off : Text → Bool
is_off raw = folded raw == codes "off" || folded raw == codes "disabled" || raw == codes "0"

abbrev pub invalid : Text → Text → ℕ → Log → ℕ × Log
invalid message raw def l =
    (def, report message ((codes "value", text raw) ∷ (codes "default", number def) ∷ []) l)

abbrev pub parsed : Text → Text → ℕ → Option ℕ → Log → ℕ × Log
parsed message raw def none l = invalid message raw def l
parsed message raw def (some d) l =
    if signed_ltb d minute then invalid message raw def l else (d, l)

-- `env` is the variable's value, `parse` is time.ParseDuration.
unfoldable pub resolve_interval :
    (message : Text) → (def : ℕ) → (parse : Text → Option ℕ) → (env : Text) → Log → ℕ × Log
resolve_interval message def parse env l =
    let raw = trim_space env in
    if raw == []
    then (def, l)
    else if is_off raw
    then (0, l)
    else parsed message raw def (parse raw) l

abbrev pub default_ror_refresh_interval : ℕ
default_ror_refresh_interval = hour

abbrev pub default_snapshot_interval : ℕ
default_snapshot_interval = 6 * hour

unfoldable pub resolve_ror_refresh_interval : (Text → Option ℕ) → Text → Log → ℕ × Log
resolve_ror_refresh_interval parse env l =
    resolve_interval (codes "ror refresh: invalid ROR_REFRESH_INTERVAL, using default")
      default_ror_refresh_interval parse env l

unfoldable pub resolve_snapshot_interval : (Text → Option ℕ) → Text → Log → ℕ × Log
resolve_snapshot_interval parse env l =
    resolve_interval (codes "snapshot: invalid SNAPSHOT_INTERVAL, using default")
      default_snapshot_interval parse env l

-- At least a minute, as a signed duration.
abbrev pub IsLong : ℕ → Type 0
IsLong d = signed_ltb d minute ≡ false

parsed_lem :
    (message raw : Text) (def : ℕ) (o : Option ℕ) (l : Log)
    → IsLong def
    → IsLong (parsed message raw def o l).0
parsed_lem message raw def none l h = h
parsed_lem message raw def (some d) l h = ground (arith, h)

resolve_interval_lem :
    (message : Text) (def : ℕ) (parse : Text → Option ℕ) (env : Text) (l : Log)
    → IsLong def
    → let d = (resolve_interval message def parse env l).0 in
      ((d ≡ 0) × (is_off (trim_space env) ≡ true)) ⊎ IsLong d
unfolding resolve_interval
resolve_interval_lem message def parse env l h = elim (Bool-cases (text_beq (trim_space env) [])) [
  | inl e ↦ rw e (inr h)
  | inr e ↦ elim (Bool-cases (is_off (trim_space env))) [
    | inl off ↦ rw (e, off) (inl (refl, refl))
    | inr on ↦
        rw (e, on) (inr (parsed_lem message (trim_space env) def (parse (trim_space env)) l h))
  ]
]

-- Whatever the environment holds and however it parses, each of the two intervals is at least a
-- minute, or it is 0 and the variable says "off", "disabled", in any case, or "0".
pub resolve_intervals_lem :
    (parse : Text → Option ℕ) (env : Text) (l : Log)
    → (let d = (resolve_snapshot_interval parse env l).0 in
        ((d ≡ 0) × (is_off (trim_space env) ≡ true)) ⊎ IsLong d)
      × (let d = (resolve_ror_refresh_interval parse env l).0 in
          ((d ≡ 0) × (is_off (trim_space env) ≡ true)) ⊎ IsLong d)
unfolding resolve_snapshot_interval resolve_ror_refresh_interval
resolve_intervals_lem parse env l = (
  resolve_interval_lem _ default_snapshot_interval parse env l refl,
  resolve_interval_lem _ default_ror_refresh_interval parse env l refl,
)

-- ===== src/Heartbeat/Backoff.antt =====
-- The delay of the heartbeats in closed form.
use native.Mathlib.Nat.{pow-suc}
use scam.Base.{
  ℕ, zero, suc, ◌+◌, ◌-◌, ◌*◌, ◌^◌, ◌<◌, ◌≤◌, ◌≡◌, refl, ap, ◌∙◌, inl, inr, arith, min, leb,
  Bool-cases, leb→le, leb_false→lt,
}
use scam.Base.Duration.{double, signed_leb, signed_leb_of_nat}
use scam.Heartbeat.{doubled, next_heartbeat_backoff, max_heartbeat_backoff}

-- Twice a value below a quarter of the range does not overflow.
double-small : (d : ℕ) → d < 4611686018427387904 → double d ≡ d * 2
double-small d h = omega arith

reached :
    (d : ℕ)
    → d < 4611686018427387904
    → signed_leb max_heartbeat_backoff (double d) ≡ leb max_heartbeat_backoff (d * 2)
reached d h =
    ap (signed_leb max_heartbeat_backoff) (double-small d h)
    ∙ signed_leb_of_nat max_heartbeat_backoff (d * 2) (omega arith) (omega arith)

pow-pos : (n : ℕ) → 0 < 2 ^ n
pow-pos zero = omega arith
pow-pos (suc n) = omega (arith, pow-pos n, pow-suc 2 n)

times_pow : (d n : ℕ) → d * 2 * 2 ^ suc n ≡ d * 2 ^ suc (suc n)
times_pow d n = omega (arith, ap (λ (t : ℕ). d * t) (pow-suc 2 (suc n)))

pow-grows : (d n : ℕ) → d * 2 ≤ d * 2 ^ suc (suc n)
pow-grows d n = let one : 1 ≤ 2 ^ suc n = pow-pos (suc n) in grind (arith, times_pow d n, one)

doubled-eq :
    (n d : ℕ)
    → d < 4611686018427387904
    → doubled (suc n) d ≡ min max_heartbeat_backoff (d * 2 ^ suc n)
unfolding doubled
doubled-eq zero d h = ground (arith, double-small d h)
doubled-eq (suc n) d h = elim (Bool-cases (leb max_heartbeat_backoff (d * 2))) [
  | inl e ↦ rw (reached d h ∙ e) (omega (arith, leb→le _ _ e, pow-grows d n))
  | inr e ↦ rw (reached d h ∙ e) (
      ap (doubled (suc n)) (double-small d h)
      ∙ doubled-eq n (d * 2) (omega (arith, leb_false→lt _ _ e))
      ∙ ap (min max_heartbeat_backoff) (times_pow d n))
]

-- After n + 2 failures in a row the delay is the interval doubled n + 1 times, up to
-- max_heartbeat_backoff, for an interval below 2^62 nanoseconds. After the first failure it is the
-- interval itself, even where that is above max_heartbeat_backoff.
pub next_heartbeat_backoff-eq :
    (base n : ℕ)
    → base < 4611686018427387904
    → (next_heartbeat_backoff base 1 ≡ base)
      × (next_heartbeat_backoff base (n + 2) ≡ min max_heartbeat_backoff (base * 2 ^ (n + 1)))
unfolding next_heartbeat_backoff
next_heartbeat_backoff-eq base n h =
    let rounds : n + 2 - 1 ≡ suc n = omega arith in
    let next : n + 1 ≡ suc n = omega arith in (refl, rw (rounds, next) (doubled-eq n base h))

-- ===== src/Identity/Refresh.antt =====
-- rorIdentityLoop of cmd/scam/rorself.go, up to the end of its context: the firings of its timer
-- are the rounds.
use scam.Base.{
  ℕ, ◌≤◌, ◌<◌, ◌≡◌, none, some, refl, ◌⊎◌, inl, inr, true, false, Option, List, [], ◌∷◌, arith,
  Text, codes, if◌then◌else◌, text_eq, ◌==◌, text_beq, Bool-cases,
}
use scam.Base.Duration.{minute, word, signed_leb}
use scam.Capture.Trim.{trim_space}
use scam.Emit.{Log, number, report}
use scam.Interval.{
  is_off, parsed, resolve_interval, resolve_ror_refresh_interval, IsLong, resolve_intervals_lem,
}
use scam.Identity.{Setting, Identity, start, rounds, next_delay, attrs_of, ror_retry_interval}
use scam.Identity.Lookup.{RorIdentity, Round, identity_beq, no_identity}
use scam.Identity.Kept.{rounds-attrs}

abbrev scheduled_rounds : Setting → ℕ × Log → Identity → List Round → Identity × Log
scheduled_rounds s (interval, l) x rs =
    if signed_leb interval 0
    then (x, report (codes "ror refresh: disabled") [] l)
    else rounds s x rs (
        report (codes "ror refresh: scheduled")
          ((codes "interval", number interval)
            ∷ (codes "next", number (next_delay interval x.current))
            ∷ [])
          l)

-- `parse` is time.ParseDuration; `endpoint` is trimmed where it is read.
unfoldable pub ror_identity_loop :
    Setting → (parse : Text → Option ℕ) → Identity → List Round → Log → Identity × Log
ror_identity_loop s parse x rs l =
    if s.endpoint == []
    then (x, l)
    else scheduled_rounds s
        (resolve_ror_refresh_interval parse (s.env (codes "ROR_REFRESH_INTERVAL")) l) x rs

scheduled_rounds-attrs :
    (s : Setting) (interval : ℕ) (x : Identity) (rs : List Round) (l : Log)
    → x.cluster_attrs ≡ attrs_of s x.current
    → let y = (scheduled_rounds s (interval, l) x rs).0 in y.cluster_attrs ≡ attrs_of s y.current
scheduled_rounds-attrs s interval x rs l h = elim (Bool-cases (signed_leb interval 0)) [
  | inl e ↦ rw e h
  | inr e ↦ rw e (rounds-attrs s x rs _ h)
]

-- Once the loop is done, whatever it was answered, the attributes stamped on the records are those
-- of the identity that it holds.
pub ror_identity_loop-attrs :
    (s : Setting) (parse : Text → Option ℕ) (id : RorIdentity) (rs : List Round) (l : Log)
    → let y = (ror_identity_loop s parse (start s id) rs l).0 in
      y.cluster_attrs ≡ attrs_of s y.current
unfolding ror_identity_loop start
ror_identity_loop-attrs s parse id rs l = elim (Bool-cases (text_beq s.endpoint [])) [
  | inl e ↦ rw e refl
  | inr e ↦
      let (d, m) = resolve_ror_refresh_interval parse (s.env (codes "ROR_REFRESH_INTERVAL")) l in
      rw e (scheduled_rounds-attrs s d (start s id) rs m refl)
]

delay_lem :
    (d : ℕ) (current : RorIdentity)
    → d < word
    → IsLong d
    → let next = next_delay d current in
      (minute ≤ next)
      × (next ≤ d)
      × ((identity_beq current no_identity ≡ false) ⊎ (next ≤ ror_retry_interval))
unfolding next_delay
delay_lem d current h long =
    let least : minute ≤ d = ground arith in
    elim (Bool-cases (identity_beq current no_identity)) [
      | inl e ↦ rw e (omega arith, omega arith, inr (omega arith))
      | inr e ↦ rw e (least, omega arith, inl refl)
    ]

parsed-lt :
    (message raw : Text) (def : ℕ) (o : Option ℕ) (l : Log)
    → def < word
    → ((d : ℕ) → o ≡ some d → d < word)
    → (parsed message raw def o l).0 < word
parsed-lt message raw def none l h f = h
parsed-lt message raw def (some d) l h f = let small = f d refl in ground (arith, small)

interval-lt :
    (parse : Text → Option ℕ) (env : Text) (l : Log)
    → ((raw : Text) (d : ℕ) → parse raw ≡ some d → d < word)
    → (resolve_ror_refresh_interval parse env l).0 < word
unfolding resolve_ror_refresh_interval resolve_interval
interval-lt parse env l f = elim (Bool-cases (text_beq (trim_space env) [])) [
  | inl e ↦ rw e (omega arith)
  | inr e ↦ elim (Bool-cases (is_off (trim_space env))) [
    | inl off ↦ rw (e, off) (omega arith)
    | inr on ↦
        rw (e, on)
          (parsed-lt _ (trim_space env) _ (parse (trim_space env)) l (omega arith)
            (f (trim_space env)))
  ]
]

-- With a ParseDuration that returns int64s: unless the variable turns the loop off, the delay to
-- the next round is a minute at least and the interval at most, and while the identity is unknown
-- it is ten minutes at most.
pub next_delay_lem :
    (parse : Text → Option ℕ) (env : Text) (l : Log) (current : RorIdentity)
    → ((raw : Text) (d : ℕ) → parse raw ≡ some d → d < word)
    → let interval = (resolve_ror_refresh_interval parse env l).0 in
      let next = next_delay interval current in
      ((interval ≡ 0) × (is_off (trim_space env) ≡ true))
      ⊎ ((minute ≤ next)
          × (next ≤ interval)
          × ((identity_beq current no_identity ≡ false) ⊎ (next ≤ ror_retry_interval)))
next_delay_lem parse env l current f = elim ((resolve_intervals_lem parse env l).1) [
  | inl off ↦ inl off
  | inr long ↦ inr (delay_lem _ current (interval-lt parse env l f) long)
]

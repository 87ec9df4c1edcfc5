-- ===== src/Identity/Kept.antt =====
-- What rorIdentityLoop keeps: an identity once known, and the attributes that belong to it.
use scam.Base.{
  ◌≡◌, ◌≢◌, refl, sym, ◌∙◌, inl, inr, true, false, List, [], ◌∷◌, ◌++◌, arith, Text, codes,
  Bool-cases, text_beq, text_beq_iff,
}
use scam.Capture.Trim.{trim_space}
use scam.Emit.{Log}
use scam.Identity.{Setting, Identity, attrs_of, start, adopt, on_round, rounds}
use scam.Identity.Lookup.{
  RorIdentity, no_identity, identity_beq, SelfReply, SecretReply, ClusterReply, no_self, self,
  unanswered, ClusterFields, Round, trim_slashes, resolve_ror_api_key, ror_self_lookup,
  ror_cluster_lookup, identity_of, fetch_ror_identity,
}

-- An identity with a uid and a slug.
abbrev pub IsKnown : RorIdentity → Type 0
IsKnown id = (id.uid ≢ []) × (id.slug ≢ [])

identity_of-IsKnown : (uid : Text) (f : ClusterFields) → uid ≢ [] → IsKnown (identity_of uid f)
identity_of-IsKnown uid f h = ground (arith, text_beq_iff f.cluster_id [])

-- A lookup gives no identity, or a known one.
fetch-IsKnown :
    (endpoint : Text) (s : SelfReply) (c : ClusterReply) (l : Log)
    → identity_beq (fetch_ror_identity endpoint s c l).0 no_identity ≡ false
    → IsKnown (fetch_ror_identity endpoint s c l).0
unfolding fetch_ror_identity
fetch-IsKnown endpoint s c l h = elim (Bool-cases (text_beq (ror_self_lookup s l).0 [])) [
  | inl e ↦ absurd (clash (rw e at h))
  | inr e ↦ rw e (
      identity_of-IsKnown (ror_self_lookup s l).0 fields
        (λ q. clash (sym ((text_beq_iff _ _).1 q) ∙ e)))
]
  where
    clash : true ≡ false → ⊥
    clash p = cc

    fields : ClusterFields
    fields =
        (ror_cluster_lookup
          (trim_slashes endpoint ++ codes "/v1/clusters/" ++ (ror_self_lookup s l).0) c
          (ror_self_lookup s l).1).0

adopt-attrs :
    (s : Setting) (x : Identity) (id : RorIdentity) (l : Log)
    → x.cluster_attrs ≡ attrs_of s x.current
    → (adopt s x id l).0.cluster_attrs ≡ attrs_of s (adopt s x id l).0.current
unfolding adopt
adopt-attrs s x id l h = ground arith

adopt-IsKnown :
    (s : Setting) (x : Identity) (id : RorIdentity) (l : Log)
    → (identity_beq id no_identity ≡ false → IsKnown id)
    → IsKnown x.current
    → IsKnown (adopt s x id l).0.current
unfolding adopt
adopt-IsKnown s x id l f h = ground arith

round-attrs :
    (s : Setting) (x : Identity) (r : Round) (l : Log)
    → x.cluster_attrs ≡ attrs_of s x.current
    → (on_round s x r l).0.cluster_attrs ≡ attrs_of s (on_round s x r l).0.current
unfolding on_round
round-attrs s x r l h = elim (Bool-cases (text_beq (resolve_ror_api_key s.env r.secret l).0 [])) [
  | inl e ↦ rw e h
  | inr e ↦ rw e (adopt-attrs s x _ _ h)
]

round-IsKnown :
    (s : Setting) (x : Identity) (r : Round) (l : Log)
    → IsKnown x.current
    → IsKnown (on_round s x r l).0.current
unfolding on_round
round-IsKnown s x r l h = elim (Bool-cases (text_beq (resolve_ror_api_key s.env r.secret l).0 [])) [
  | inl e ↦ rw e h
  | inr e ↦ rw e (adopt-IsKnown s x _ _ (fetch-IsKnown s.endpoint r.self r.cluster _) h)
]

-- The attributes stay those of the identity held.
pub rounds-attrs :
    (s : Setting) (x : Identity) (rs : List Round) (l : Log)
    → x.cluster_attrs ≡ attrs_of s x.current
    → let y = (rounds s x rs l).0 in y.cluster_attrs ≡ attrs_of s y.current
unfolding rounds
rounds-attrs s x [] l h = h
rounds-attrs s x (r ∷ rs) l h =
    rounds-attrs s (on_round s x r l).0 rs (on_round s x r l).1 (round-attrs s x r l h)

stays-IsKnown :
    (s : Setting) (x : Identity) (rs : List Round) (l : Log)
    → IsKnown x.current
    → IsKnown (rounds s x rs l).0.current
unfolding rounds
stays-IsKnown s x [] l k = k
stays-IsKnown s x (r ∷ rs) l k =
    stays-IsKnown s (on_round s x r l).0 rs (on_round s x r l).1 (round-IsKnown s x r l k)

-- Once the cluster has an identity with a uid and a slug, it has one after any rounds, whatever ROR
-- and the Secret answer, and the attributes stamped on the records are those of the identity held.
pub rounds-IsKnown :
    (s : Setting) (id : RorIdentity) (rs : List Round) (l : Log)
    → IsKnown id
    → let y = (rounds s (start s id) rs l).0 in
      (y.cluster_attrs ≡ attrs_of s y.current) × IsKnown y.current
unfolding start
rounds-IsKnown s id rs l k =
    (rounds-attrs s (start s id) rs l refl, stays-IsKnown s (start s id) rs l k)

-- A round whose lookup of the apikey's own identity fails changes neither the identity nor the
-- attributes, whatever else it is answered.
pub on_round-self_failed :
    (s : Setting) (x : Identity) (reply : SecretReply) (err : Text) (c : ClusterReply) (l : Log)
    → (on_round s x (record { secret = reply; self = no_self err; cluster = c }) l).0 ≡ x
unfolding on_round fetch_ror_identity ror_self_lookup adopt
on_round-self_failed s x reply err c l =
    elim (Bool-cases (text_beq (resolve_ror_api_key s.env reply l).0 [])) [
      | inl e ↦ rw e refl
      | inr e ↦ rw e refl
    ]

-- A round that resolves the same uid as before while the lookup of the cluster gets no answer: if
-- the slug held is another text than the uid, the slug becomes the uid, and the name and the
-- environment become empty.
pub on_round-cluster_failed :
    (s : Setting) (x : Identity) (reply : SecretReply) (kind user err : Text) (l : Log)
    → (resolve_ror_api_key s.env reply l).0 ≢ []
    → trim_space user ≢ []
    → x.current.uid ≡ trim_space user
    → x.current.slug ≢ trim_space user
    → (on_round s x
        (record { secret = reply; self = self kind true user; cluster = unanswered err })
        l).0.current
      ≡ record { uid = trim_space user; slug = trim_space user; name = []; environment = [] }
unfolding on_round fetch_ror_identity ror_self_lookup ror_cluster_lookup adopt
on_round-cluster_failed s x reply kind user err l k u same other = ground (
  arith,
  text_beq_iff (resolve_ror_api_key s.env reply l).0 [],
  text_beq_iff (trim_space user) [],
  text_beq_iff (trim_space user) x.current.slug,
)

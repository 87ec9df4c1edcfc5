-- ===== src/Refs/Keys.antt =====
-- The keys of the index by backend: each target once, and told apart.
use scam.Base.{
  ◌≡◌, ◌↔◌, refl, sym, ap, ◌∙◌, inl, inr, Option, some, List, [], ◌∷◌, map, arith, Text, Free, All,
  In, IsUnique, unique_from-IsUnique, unique_from_iff, contains, text_eq,
}
use scam.Emit.{BackendTarget}
use scam.Image.{cut_first}
use scam.Image.Cuts.{cut_first-append}
use scam.Refs.{target_key, backend_targets_to_keys}

-- No slash in the namespace, as Kubernetes guarantees.
abbrev pub HasPlainNamespace : BackendTarget → Type 0
HasPlainNamespace t = Free b'/' t.namespace

pub target_key_injective :
    (t u : BackendTarget)
    → HasPlainNamespace t
    → HasPlainNamespace u
    → target_key t ≡ target_key u
    → t ≡ u
target_key_injective t u ht hu e =
    let cut : ◌≡◌ {A = Option (Text × Text)} (some (t.namespace, t.name))
        (some (u.namespace, u.name)) =
      sym (cut_first-append b'/' t.namespace t.name ht)
      ∙ ap (cut_first b'/') e
      ∙ cut_first-append b'/' u.namespace u.name hu in
    ground arith

In-map-key :
    (t : BackendTarget) (ts : List BackendTarget)
    → HasPlainNamespace t
    → All HasPlainNamespace ts
    → In (target_key t) (map target_key ts) ↔ In t ts
In-map-key t [] h k = ((λ i. i), (λ i. i))
In-map-key t (u ∷ us) h (hu, k) = (
  λ i. elim i [
    | inl e ↦ inl (target_key_injective u t hu h e)
    | inr j ↦ inr ((In-map-key t us h k).0 j)
  ],
  λ i. elim i [ inl e ↦ inl (ap target_key e) | inr j ↦ inr ((In-map-key t us h k).1 j) ],
)

-- The keys are distinct, and the key of a target is among them exactly when the target is in the
-- list, if no namespace holds a slash.
pub backend_targets_to_keys_lem :
    (t : BackendTarget) (ts : List BackendTarget)
    → HasPlainNamespace t
    → All HasPlainNamespace ts
    → IsUnique (backend_targets_to_keys ts)
      × (In (target_key t) (backend_targets_to_keys ts) ↔ In t ts)
unfolding backend_targets_to_keys contains
backend_targets_to_keys_lem t ts h k =
    let (to, from) = unique_from_iff [] (map target_key ts) (target_key t) in
    let (to', from') = In-map-key t ts h k in
    (unique_from-IsUnique [] (map target_key ts), (λ i. to' (to i).0, λ i. from (from' i, refl)))

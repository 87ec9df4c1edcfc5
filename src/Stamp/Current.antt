-- ===== src/Stamp/Current.antt =====
-- The attributes on a record are those of the identity that is held when the record is logged.
use scam.Base.{◌≡◌, refl, ap, ap₂, List, [], ◌∷◌, Text}
use scam.Emit.{Log}
use scam.Identity.{Setting, IdentityAttr, attrs_of, start, rounds}
use scam.Identity.Lookup.{RorIdentity, Round}
use scam.Identity.Kept.{rounds-attrs}
use scam.Stamp.{
  SlogRecord, Slog, ClusterAttrHandler, add_attrs, with_cluster_attrs, enabled, handle, with_attrs,
  with_group,
}

-- What Logger.With and Logger.WithGroup do to a handler.
pub data Derivation (A : Type 0) : Type 0 where
  attrs : List A → Derivation A
  group : Text → Derivation A

module _ {A : Type 0} (x : Slog A) where
  -- On slog's own handler.
  abbrev pub derive_plain : List (Derivation A) → x.Handler → x.Handler
  derive_plain [] h = h
  derive_plain (attrs added ∷ ds) h = derive_plain ds (x.with_attrs h added)
  derive_plain (group name ∷ ds) h = derive_plain ds (x.with_group h name)

  -- On the program's.
  abbrev pub derive : List (Derivation A) → ClusterAttrHandler x → ClusterAttrHandler x
  derive [] h = h
  derive (attrs added ∷ ds) h = derive ds (with_attrs x h added)
  derive (group name ∷ ds) h = derive ds (with_group x h name)

  derive-inner :
      (ds : List (Derivation A)) (h : ClusterAttrHandler x)
      → (derive ds h).inner ≡ derive_plain ds h.inner
  unfolding with_attrs with_group
  derive-inner [] h = refl
  derive-inner (attrs added ∷ ds) h = derive-inner ds _
  derive-inner (group name ∷ ds) h = derive-inner ds _

-- However a logger is derived from main's by With and WithGroup, before or after any rounds of the
-- refresh loop: a record that it logs after them goes, with the attributes of the identity that is
-- held then behind its own, to the handler that the same derivation makes of the wrapped one. The
-- levels that are enabled are that handler's.
pub handle-current :
    (x : Slog IdentityAttr) (h : x.Handler) (ds : List (Derivation IdentityAttr)) (s : Setting)
    (id : RorIdentity) (rs : List Round) (l : Log) (r : SlogRecord IdentityAttr)
    → let y = (rounds s (start s id) rs l).0 in
      let derived = derive x ds (with_cluster_attrs x h) in
      (handle x y.cluster_attrs derived r
        ≡ x.handle (derive_plain x ds h) (add_attrs r (attrs_of s y.current)))
      × (enabled x derived r.level ≡ x.enabled (derive_plain x ds h) r.level)
unfolding handle enabled start
handle-current x h ds s id rs l r =
    let plain = derive-inner x ds (with_cluster_attrs x h) in
    (
      ap₂ (λ k attrs. x.handle k (add_attrs r attrs)) plain (rounds-attrs s (start s id) rs l refl),
      ap (λ k. x.enabled k r.level) plain,
    )

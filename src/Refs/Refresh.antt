-- ===== src/Refs/Refresh.antt =====
-- RefreshBackendServices emits each referenced Service once.
use scam.Base.{
  ◌≡◌, refl, ◌∙◌, inl, inr, Bool-cases, Option-cases, none, some, List, [], ◌∷◌, arith, codes,
  contains, unique_from,
}
use scam.Emit.{BackendTarget, Log, Draft, stamped, put, put_all}
use scam.Service.{service_attrs, emit_service}
use scam.Refs.{
  Services, target_eq, emit_found, refresh_from, refresh_plain, refresh_backend_services,
}

-- The records for the targets whose Service exists, in order.
unfoldable pub exposures : Services → List BackendTarget → List Draft
exposures get [] = []
exposures get (t ∷ ts) = elim (get t.namespace t.name) [
  | none ↦ exposures get ts
  | some svc ↦ stamped (codes "EXPOSURE") (codes "Service") (service_attrs svc) ∷ exposures get ts
]

put_found :
    (get : Services) (t : BackendTarget) (ts : List BackendTarget) (l : Log)
    → put_all (exposures get ts) (emit_found (get t.namespace t.name) l)
      ≡ put_all (exposures get (t ∷ ts)) l
unfolding exposures put_all put emit_service
put_found get t ts l = elim (Option-cases (get t.namespace t.name)) [
  | inl e ↦ rw (e, exposures)
  | inr (svc, e) ↦ rw (e, exposures)
]

refresh_from_lem :
    (get : Services) (seen ts : List BackendTarget) (l : Log)
    → refresh_from get seen ts l ≡ put_all (exposures get (unique_from seen ts)) l
unfolding refresh_from unique_from exposures put_all
refresh_from_lem get seen [] l = refl
refresh_from_lem get seen (t ∷ ts) l = elim (Bool-cases (contains seen t)) [
  | inl e ↦ rw e (refresh_from_lem get seen ts l)
  | inr e ↦
      rw e (refresh_from_lem get (t ∷ seen) ts _ ∙ put_found get t (unique_from (t ∷ seen) ts) l)
]

empty_lem : (get : Services) (l : Log) → l ≡ put_all (exposures get (unique_from [] [])) l
unfolding unique_from exposures put_all
empty_lem get l = refl

single_lem :
    (get : Services) (t : BackendTarget) (l : Log)
    → refresh_plain get (t ∷ []) l ≡ put_all (exposures get (unique_from [] (t ∷ []))) l
unfolding refresh_plain refresh_from unique_from contains
single_lem get t l = refresh_from_lem get [] (t ∷ []) l

-- Each target is looked up once, in the order of its first occurrence, and an EXPOSURE record with
-- its Service is emitted if there is one, and nothing else.
pub refresh_backend_services_lem :
    (get : Services) (ts : List BackendTarget) (l : Log)
    → refresh_backend_services (some get) ts l ≡ put_all (exposures get (unique_from [] ts)) l
unfolding refresh_backend_services
refresh_backend_services_lem get [] l = empty_lem get l
refresh_backend_services_lem get (t ∷ []) l = single_lem get t l
refresh_backend_services_lem get (t ∷ u ∷ ts) l =
    ground (arith, refresh_from_lem get [] (t ∷ u ∷ ts) l)

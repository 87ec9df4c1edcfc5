-- ===== src/Watch/Exposed.antt =====
-- The Services that a changed Ingress or Traefik route refers to are reported behind it.
use scam.Base.{◌≡◌, true, some, List, [], ◌∷◌, codes, unique_from}
use scam.Kube.{Ingress, Unstructured}
use scam.Dynamic.{Nested}
use scam.Emit.{BackendTarget, Log, Draft, stamped, put, put_all}
use scam.Pod.Owner.{ReplicaSets}
use scam.Ingress.{ingress_attrs, emit_ingress}
use scam.Refs.{Services, target_eq, ingress_backends, traefik_backends, refresh_backend_services}
use scam.Refs.Refresh.{exposures, refresh_backend_services_lem}
use scam.Gateway.{Gvr}
use scam.Traefik.{traefik_kind_from_resource, traefik_attrs, emit_traefik}
use scam.Informer.{Any, typed, added, updated, as_typed, on_events}
use scam.Watch.{Setting, of_ingress, of_traefik, notify}

-- A record, then the exposures of the targets, each once.
abbrev pub exposing : Draft → Services → List BackendTarget → List Draft
exposing d get ts = d ∷ exposures get (unique_from [] ts)

refreshed :
    (d : Draft) (get : Services) (ts : List BackendTarget) (l : Log)
    → refresh_backend_services (some get) ts (put d l) ≡ put_all (exposing d get ts) l
unfolding put_all
refreshed d get ts l = refresh_backend_services_lem get ts (put d l)

module _ (lib : Nested) (sets : ReplicaSets) (get : Services) where
  abbrev pub setting : Setting
  setting = record { lib = lib; replica_sets = sets; services = some get }

  -- Once synced, an Ingress that is added, an Ingress that is updated, from whatever old version, and
  -- a Traefik route that is added are reported, and behind the object each Service that it refers to
  -- and that exists, once.
  pub notify-exposing :
      (i : Ingress) (old : Any Ingress) (gvr : Gvr) (u : Unstructured) (l : Log)
      → (notify setting true (of_ingress (added (typed i))) l
          ≡ put_all
              (exposing
                (stamped (codes "ADD") (codes "Ingress") (ingress_attrs i))
                get
                (ingress_backends i))
              l)
        × (notify setting true (of_ingress (updated old (typed i))) l
            ≡ put_all
                (exposing
                  (stamped (codes "UPDATE") (codes "Ingress") (ingress_attrs i))
                  get
                  (ingress_backends i))
                l)
        × (notify setting true (of_traefik gvr (added (typed u))) l
            ≡ put_all
                (exposing
                  (stamped
                    (codes "ADD")
                    (traefik_kind_from_resource gvr.resource)
                    (traefik_attrs lib gvr u))
                  get
                  (traefik_backends lib u))
                l)
  unfolding notify on_events as_typed emit_ingress emit_traefik put
  notify-exposing i old gvr u l = (
    refreshed _ get (ingress_backends i) l,
    refreshed _ get (ingress_backends i) l,
    refreshed _ get (traefik_backends lib u) l,
  )

-- ===== src/Traefik.antt =====
-- Traefik routes: internal/collector/traefik.go without the discovery. TraefikBackends is in `Refs`,
-- the two regular expressions in `Traefik.Hosts`.
pub mod Hosts
pub mod Rules
pub mod Distinct
mod Tests
use scam.Base.{ℕ, List, [], ◌∷◌, ◌++◌, map, Text, codes, if◌then◌else◌, text_eq, ◌==◌, unique_from}
use scam.Kube.{Fields, Unstructured}
use scam.Dynamic.{Nested, u_str, u_slice, u_string_slice, maps}
use scam.Emit.{Attrs, Log, text, texts, labels, backend_targets, emit}
use scam.Refs.{traefik_backends}
use scam.Gateway.{Gvr, api_version}
use Hosts.{match_hosts}

unfoldable pub traefik_kind_from_resource : Text → Text
traefik_kind_from_resource r =
    if r == codes "ingressroutes"
    then codes "IngressRoute"
    else if r == codes "ingressroutetcps"
    then codes "IngressRouteTCP"
    else if r == codes "ingressrouteudps"
    then codes "IngressRouteUDP"
    else r

module _ (lib : Nested) where
  -- The hosts in the matches of the routes, with repetitions.
  unfoldable pub all_hosts : List Fields → List Text
  all_hosts [] = []
  all_hosts (r ∷ rs) = match_hosts (u_str lib r (codes "match" ∷ [])) ++ all_hosts rs

  unfoldable pub extract_traefik_hosts : Unstructured → List Text
  extract_traefik_hosts u =
      unique_from [] (all_hosts (maps (u_slice lib u.object (codes "spec" ∷ codes "routes" ∷ []))))

  unfoldable pub traefik_attrs : Gvr → Unstructured → Attrs
  traefik_attrs gvr u =
      (codes "api_version", text (api_version gvr))
      ∷ (codes "uid", text u.meta.uid)
      ∷ (codes "namespace", text u.meta.namespace)
      ∷ (codes "name", text u.meta.name)
      ∷ (codes "labels", labels u.meta.labels)
      ∷ (
        codes "entry_points",
        texts (u_string_slice lib u.object (codes "spec" ∷ codes "entryPoints" ∷ [])),
      )
      ∷ (codes "hosts", texts (extract_traefik_hosts u))
      ∷ (
        codes "tls_secret",
        text (u_str lib u.object (codes "spec" ∷ codes "tls" ∷ codes "secretName" ∷ [])),
      )
      ∷ (codes "backends", backend_targets (traefik_backends lib u))
      ∷ []

  unfoldable pub emit_traefik : Text → Gvr → Unstructured → Log → Log
  emit_traefik event gvr u l =
      emit event (traefik_kind_from_resource gvr.resource) (traefik_attrs gvr u) l

unfoldable pub emit_traefik_delete : Gvr → Unstructured → Log → Log
emit_traefik_delete gvr u l =
    emit (codes "DELETE") (traefik_kind_from_resource gvr.resource)
      ((codes "api_version", text (api_version gvr))
        ∷ (codes "uid", text u.meta.uid)
        ∷ (codes "namespace", text u.meta.namespace)
        ∷ (codes "name", text u.meta.name)
        ∷ [])
      l

-- ===== src/Gateway.antt =====
-- Gateway API objects: internal/collector/gatewayapi.go, without the discovery.
use scam.Base.{List, [], ◌∷◌, ◌++◌, map, Text, codes, if◌then◌else◌, text_eq, ◌==◌}
use scam.Kube.{Fields, Unstructured}
use scam.Dynamic.{Nested, u_str, u_slice, u_string_slice, u_int32, maps}
use scam.Emit.{
  Attrs, Log, GwListener, GwAddress, ParentRef, BackendRef, text, texts, labels, gw_listeners,
  gw_addresses, parent_refs, backend_refs, emit,
}

-- schema.GroupVersionResource.
pub record Gvr : Type 0 where
  pub group : Text
  pub version : Text
  pub resource : Text

-- The string of its group and version; the group is never empty here.
abbrev pub api_version : Gvr → Text
api_version gvr = gvr.group ++ b'/' ∷ gvr.version

unfoldable pub gvr_strings : List Gvr → List Text
gvr_strings [] = []
gvr_strings (g ∷ gs) = (api_version g ++ b'/' ∷ g.resource) ∷ gvr_strings gs

unfoldable pub kind_from_resource : Text → Text
kind_from_resource r =
    if r == codes "gateways"
    then codes "Gateway"
    else if r == codes "gatewayclasses"
    then codes "GatewayClass"
    else if r == codes "httproutes"
    then codes "HTTPRoute"
    else if r == codes "grpcroutes"
    then codes "GRPCRoute"
    else if r == codes "tlsroutes"
    then codes "TLSRoute"
    else if r == codes "tcproutes"
    then codes "TCPRoute"
    else r

module _ (lib : Nested) where
  unfoldable pub listener : Fields → GwListener
  listener m = record {
    name = u_str lib m (codes "name" ∷ []);
    port = u_int32 lib m (codes "port" ∷ []);
    protocol = u_str lib m (codes "protocol" ∷ []);
    hostname = u_str lib m (codes "hostname" ∷ []);
  }

  unfoldable pub parse_listeners : Unstructured → List GwListener
  parse_listeners u =
      map listener (maps (u_slice lib u.object (codes "spec" ∷ codes "listeners" ∷ [])))

  unfoldable pub address : Fields → GwAddress
  address m = record {
    address_type = u_str lib m (codes "type" ∷ []);
    value = u_str lib m (codes "value" ∷ []);
  }

  unfoldable pub parse_addresses : Fields → List Text → List GwAddress
  parse_addresses obj path = map address (maps (u_slice lib obj path))

  unfoldable pub gateway_attrs : Gvr → Unstructured → Attrs
  gateway_attrs gvr u =
      (codes "api_version", text (api_version gvr))
      ∷ (codes "uid", text u.meta.uid)
      ∷ (codes "namespace", text u.meta.namespace)
      ∷ (codes "name", text u.meta.name)
      ∷ (codes "labels", labels u.meta.labels)
      ∷ (
        codes "gateway_class",
        text (u_str lib u.object (codes "spec" ∷ codes "gatewayClassName" ∷ [])),
      )
      ∷ (codes "listeners", gw_listeners (parse_listeners u))
      ∷ (
        codes "spec_addresses",
        gw_addresses (parse_addresses u.object (codes "spec" ∷ codes "addresses" ∷ [])),
      )
      ∷ (
        codes "addresses",
        gw_addresses (parse_addresses u.object (codes "status" ∷ codes "addresses" ∷ [])),
      )
      ∷ []

  unfoldable pub emit_gateway : Text → Gvr → Unstructured → Log → Log
  emit_gateway event gvr u l = emit event (codes "Gateway") (gateway_attrs gvr u) l

  unfoldable pub gateway_class_attrs : Gvr → Unstructured → Attrs
  gateway_class_attrs gvr u =
      (codes "api_version", text (api_version gvr))
      ∷ (codes "uid", text u.meta.uid)
      ∷ (codes "name", text u.meta.name)
      ∷ (codes "labels", labels u.meta.labels)
      ∷ (codes "controller", text (u_str lib u.object (codes "spec" ∷ codes "controllerName" ∷ [])))
      ∷ []

  unfoldable pub emit_gateway_class : Text → Gvr → Unstructured → Log → Log
  emit_gateway_class event gvr u l = emit event (codes "GatewayClass") (gateway_class_attrs gvr u) l

  unfoldable pub parent_ref : Fields → ParentRef
  parent_ref m = record {
    group = u_str lib m (codes "group" ∷ []);
    kind = u_str lib m (codes "kind" ∷ []);
    namespace = u_str lib m (codes "namespace" ∷ []);
    name = u_str lib m (codes "name" ∷ []);
    section_name = u_str lib m (codes "sectionName" ∷ []);
    port = u_int32 lib m (codes "port" ∷ []);
  }

  unfoldable pub parse_parent_refs : Unstructured → List ParentRef
  parse_parent_refs u =
      map parent_ref (maps (u_slice lib u.object (codes "spec" ∷ codes "parentRefs" ∷ [])))

  unfoldable pub backend_ref : Fields → BackendRef
  backend_ref m = record {
    group = u_str lib m (codes "group" ∷ []);
    kind = u_str lib m (codes "kind" ∷ []);
    namespace = u_str lib m (codes "namespace" ∷ []);
    name = u_str lib m (codes "name" ∷ []);
    port = u_int32 lib m (codes "port" ∷ []);
    weight = u_int32 lib m (codes "weight" ∷ []);
  }

  -- The loop over the rules, with the backends collected so far.
  unfoldable pub collect_from : List BackendRef → List Fields → List BackendRef
  collect_from out [] = out
  collect_from out (r ∷ rs) =
      collect_from (out ++ map backend_ref (maps (u_slice lib r (codes "backendRefs" ∷ [])))) rs

  unfoldable pub collect_route_backends : Unstructured → List BackendRef
  collect_route_backends u =
      collect_from [] (maps (u_slice lib u.object (codes "spec" ∷ codes "rules" ∷ [])))

  unfoldable pub route_attrs : Gvr → Unstructured → Attrs
  route_attrs gvr u =
      (codes "api_version", text (api_version gvr))
      ∷ (codes "uid", text u.meta.uid)
      ∷ (codes "namespace", text u.meta.namespace)
      ∷ (codes "name", text u.meta.name)
      ∷ (codes "labels", labels u.meta.labels)
      ∷ (codes "parent_refs", parent_refs (parse_parent_refs u))
      ∷ (
        codes "hostnames",
        texts (u_string_slice lib u.object (codes "spec" ∷ codes "hostnames" ∷ [])),
      )
      ∷ (codes "backends", backend_refs (collect_route_backends u))
      ∷ []

  unfoldable pub emit_route : Text → Gvr → Unstructured → Text → Log → Log
  emit_route event gvr u kind l = emit event kind (route_attrs gvr u) l

  unfoldable pub emit_gateway_api : Text → Gvr → Unstructured → Log → Log
  emit_gateway_api event gvr u l =
      if gvr.resource == codes "gateways"
      then emit_gateway event gvr u l
      else if gvr.resource == codes "gatewayclasses"
      then emit_gateway_class event gvr u l
      else if gvr.resource == codes "httproutes"
      then emit_route event gvr u (codes "HTTPRoute") l
      else if gvr.resource == codes "grpcroutes"
      then emit_route event gvr u (codes "GRPCRoute") l
      else if gvr.resource == codes "tlsroutes"
      then emit_route event gvr u (codes "TLSRoute") l
      else if gvr.resource == codes "tcproutes"
      then emit_route event gvr u (codes "TCPRoute") l
      else l

unfoldable pub emit_gateway_api_delete : Gvr → Unstructured → Log → Log
emit_gateway_api_delete gvr u l =
    emit (codes "DELETE") (kind_from_resource gvr.resource)
      ((codes "api_version", text (api_version gvr))
        ∷ (codes "uid", text u.meta.uid)
        ∷ (codes "namespace", text u.meta.namespace)
        ∷ (codes "name", text u.meta.name)
        ∷ [])
      l

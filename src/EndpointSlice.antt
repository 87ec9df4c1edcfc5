-- ===== src/EndpointSlice.antt =====
-- EndpointSlices: internal/collector/endpointslice.go.
use scam.Base.{ℕ, Option, none, some, [], ◌∷◌, map, Text, codes, if◌then◌else◌, text_eq, ◌==◌}
use scam.Kube.{Labels, EndpointSlice, Endpoint, EndpointPort}
use scam.Emit.{Attrs, Log, EpEndpoint, EpPort, text, labels, ep_endpoints, ep_ports, emit}
use scam.Service.{deref_str}

-- A read of a map: the empty text where the key is missing.
unfoldable pub label : Text → Labels → Text
label k [] = []
label k ((j, v) ∷ m) = if j == k then v else label k m

abbrev pub ep_endpoint : Endpoint → EpEndpoint
ep_endpoint ep = record {
  addresses = ep.addresses;
  ready = ep.ready;
  hostname = deref_str ep.hostname;
  node_name = deref_str ep.node_name;
  zone = deref_str ep.zone;
}

abbrev pub deref_int : Option ℕ → ℕ
deref_int none = 0
deref_int (some n) = n

abbrev pub ep_port : EndpointPort → EpPort
ep_port p = record {
  name = deref_str p.name;
  port = deref_int p.port;
  protocol = deref_str p.protocol;
}

unfoldable pub endpoint_slice_attrs : EndpointSlice → Attrs
endpoint_slice_attrs es =
    (codes "uid", text es.meta.uid)
    ∷ (codes "namespace", text es.meta.namespace)
    ∷ (codes "name", text es.meta.name)
    ∷ (codes "labels", labels es.meta.labels)
    ∷ (codes "service_name", text (label (codes "kubernetes.io/service-name") es.meta.labels))
    ∷ (codes "address_type", text es.address_type)
    ∷ (codes "endpoints", ep_endpoints (map ep_endpoint es.endpoints))
    ∷ (codes "ports", ep_ports (map ep_port es.ports))
    ∷ []

unfoldable pub emit_endpoint_slice : Text → EndpointSlice → Log → Log
emit_endpoint_slice event es l = emit event (codes "EndpointSlice") (endpoint_slice_attrs es) l

unfoldable pub emit_endpoint_slice_delete : EndpointSlice → Log → Log
emit_endpoint_slice_delete es l =
    emit (codes "DELETE") (codes "EndpointSlice")
      ((codes "uid", text es.meta.uid)
        ∷ (codes "namespace", text es.meta.namespace)
        ∷ (codes "name", text es.meta.name)
        ∷ [])
      l

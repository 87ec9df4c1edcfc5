-- ===== src/Service.antt =====
-- Services: internal/collector/service.go, and derefStr of helpers.go.
pub mod Addresses
mod Tests
use scam.Base.{
  ℕ, not, Option, none, some, List, [], ◌∷◌, ◌++◌, map, Text, codes, if◌then◌else◌, text_eq, ◌==◌,
}
use scam.Kube.{Service, ServicePort, LoadBalancer}
use scam.Emit.{Attrs, Log, SvcPort, text, texts, labels, svc_ports, emit}

abbrev pub deref_str : Option Text → Text
deref_str none = []
deref_str (some s) = s

abbrev pub svc_port : ServicePort → SvcPort
svc_port p = record {
  name = p.name;
  port = p.port;
  target_port = p.target_port;
  protocol = p.protocol;
  node_port = p.node_port;
  app_proto = deref_str p.app_protocol;
}

abbrev pub append_unless_empty : List Text → Text → List Text
append_unless_empty out s = if not (s == []) then out ++ s ∷ [] else out

-- The loop of lbAddresses and of IngressLbAddresses, which are the same code.
unfoldable pub lb_from : List Text → List Text → List LoadBalancer → List Text × List Text
lb_from ips hosts [] = (ips, hosts)
lb_from ips hosts (lb ∷ rest) =
    lb_from (append_unless_empty ips lb.ip) (append_unless_empty hosts lb.hostname) rest

unfoldable pub lb_addresses : List LoadBalancer → List Text × List Text
lb_addresses in' = lb_from [] [] in'

unfoldable pub ingress_lb_addresses : List LoadBalancer → List Text × List Text
ingress_lb_addresses in' = lb_from [] [] in'

unfoldable pub service_attrs : Service → Attrs
service_attrs s =
    let (ips, hosts) = lb_addresses s.load_balancer in
    (codes "uid", text s.meta.uid)
    ∷ (codes "namespace", text s.meta.namespace)
    ∷ (codes "name", text s.meta.name)
    ∷ (codes "labels", labels s.meta.labels)
    ∷ (codes "service_type", text s.service_type)
    ∷ (codes "cluster_ips", texts s.cluster_ips)
    ∷ (codes "external_ips", texts s.external_ips)
    ∷ (codes "external_name", text s.external_name)
    ∷ (codes "selector", labels s.selector)
    ∷ (codes "ports", svc_ports (map svc_port s.ports))
    ∷ (codes "lb_ips", texts ips)
    ∷ (codes "lb_hostnames", texts hosts)
    ∷ []

unfoldable pub emit_service : Text → Service → Log → Log
emit_service event s l = emit event (codes "Service") (service_attrs s) l

unfoldable pub emit_service_delete : Service → Log → Log
emit_service_delete s l =
    emit (codes "DELETE") (codes "Service")
      ((codes "uid", text s.meta.uid)
        ∷ (codes "namespace", text s.meta.namespace)
        ∷ (codes "name", text s.meta.name)
        ∷ [])
      l

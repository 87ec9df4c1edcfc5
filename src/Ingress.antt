-- ===== src/Ingress.antt =====
-- Ingresses and IngressClasses: internal/collector/ingress.go.
use scam.Base.{
  ℕ, zero, suc, ◌+◌, ◌-◌, ◌/◌, ◌%◌, not, Option, none, some, List, [], ◌∷◌, ◌++◌, map, Text, codes,
  ltb, if◌then◌else◌, nat_eq, text_eq, ◌==◌,
}
use scam.Kube.{
  Ingress, IngressClass, ServiceBackend, ResourceBackend, HttpPath, IngressRule, IngressTls,
}
use scam.Emit.{Attrs, Log, IngPath, IngRule, IngTls, text, texts, labels, ing_rules, ing_tls, emit}
use scam.Service.{deref_str, ingress_lb_addresses}

-- The decimal digits of a number; ten are enough for 32 bits.
unfoldable pub decimal : ℕ → ℕ → Text
decimal zero n = []
decimal (suc f) n =
    let more = decimal f (n / 10) ++ (b'0' + n % 10) ∷ [] in
    if ltb n 10 then (b'0' + n) ∷ [] else more

-- strconv.Itoa of an int32, given as its bit pattern.
unfoldable pub itoa32 : ℕ → Text
itoa32 n = if ltb n 2147483648 then decimal 10 n else b'-' ∷ decimal 10 (4294967296 - n)

-- The fields backend_kind, backend_name and backend_port, in this order.
unfoldable pub service_port : ServiceBackend → Text
service_port s =
    if not (s.port_name == [])
    then s.port_name
    else if not (s.port_number == 0)
    then itoa32 s.port_number
    else []

abbrev pub resource_fields : Option ResourceBackend → Text × Text × Text
resource_fields none = ([], [], [])
resource_fields (some r) = (r.kind, r.name, [])

abbrev pub backend_fields : Option ServiceBackend → Option ResourceBackend → Text × Text × Text
backend_fields none r = resource_fields r
backend_fields (some s) r = (codes "Service", s.name, service_port s)

unfoldable pub ing_path : HttpPath → IngPath
ing_path p =
    let (kind, name, port) = backend_fields p.backend.service p.backend.resource in
    record {
      path = p.path;
      path_type = deref_str p.path_type;
      backend_kind = kind;
      backend_name = name;
      backend_port = port;
    }

abbrev pub paths_of : Option (List HttpPath) → List HttpPath
paths_of none = []
paths_of (some ps) = ps

unfoldable pub ing_rule : IngressRule → IngRule
ing_rule r = record { host = r.host; paths = map ing_path (paths_of r.http) }

unfoldable pub ing_tls_of : IngressTls → IngTls
ing_tls_of t = record { hosts = t.hosts; secret = t.secret_name }

unfoldable pub ingress_attrs : Ingress → Attrs
ingress_attrs i =
    let (ips, hosts) = ingress_lb_addresses i.load_balancer in
    (codes "uid", text i.meta.uid)
    ∷ (codes "namespace", text i.meta.namespace)
    ∷ (codes "name", text i.meta.name)
    ∷ (codes "labels", labels i.meta.labels)
    ∷ (codes "ingress_class", text (deref_str i.ingress_class_name))
    ∷ (codes "rules", ing_rules (map ing_rule i.rules))
    ∷ (codes "tls", ing_tls (map ing_tls_of i.tls))
    ∷ (codes "lb_ips", texts ips)
    ∷ (codes "lb_hostnames", texts hosts)
    ∷ []

unfoldable pub emit_ingress : Text → Ingress → Log → Log
emit_ingress event i l = emit event (codes "Ingress") (ingress_attrs i) l

unfoldable pub emit_ingress_delete : Ingress → Log → Log
emit_ingress_delete i l =
    emit (codes "DELETE") (codes "Ingress")
      ((codes "uid", text i.meta.uid)
        ∷ (codes "namespace", text i.meta.namespace)
        ∷ (codes "name", text i.meta.name)
        ∷ [])
      l

unfoldable pub ingress_class_attrs : IngressClass → Attrs
ingress_class_attrs ic =
    (codes "uid", text ic.meta.uid)
    ∷ (codes "name", text ic.meta.name)
    ∷ (codes "labels", labels ic.meta.labels)
    ∷ (codes "controller", text ic.controller)
    ∷ []

unfoldable pub emit_ingress_class : Text → IngressClass → Log → Log
emit_ingress_class event ic l = emit event (codes "IngressClass") (ingress_class_attrs ic) l

unfoldable pub emit_ingress_class_delete : IngressClass → Log → Log
emit_ingress_class_delete ic l =
    emit (codes "DELETE") (codes "IngressClass")
      ((codes "uid", text ic.meta.uid) ∷ (codes "name", text ic.meta.name) ∷ []) l

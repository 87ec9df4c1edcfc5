-- ===== src/Samples.antt =====
-- Sample objects that the tests of several modules share.
use scam.Base.{none, some, [], ◌∷◌, Text, codes}
use scam.Kube.{Service, Ingress, Container, Pod}
use scam.Emit.{Log}
use scam.Dynamic.Sample.{plain_meta}
use scam.Pod.Owner.{ReplicaSets}

abbrev pub service : Text → Service
service name = record {
  meta = plain_meta (codes "shop") name;
  service_type = codes "ClusterIP";
  cluster_ips = [];
  external_ips = [];
  external_name = [];
  selector = [];
  ports = [];
  load_balancer = [];
  conditions = [];
}

-- An Ingress of the namespace of the services, with a default backend.
abbrev pub ingress : Text → Ingress
ingress backend = record {
  meta = plain_meta (codes "shop") (codes "front");
  ingress_class_name = none;
  default_backend = some (record {
    service = some (record { name = backend; port_name = []; port_number = 80 });
    resource = none;
  });
  rules = [];
  tls = [];
  load_balancer = [];
}

abbrev pub container : Text → Text → Container
container name image = record {
  name = name;
  image = image;
  command = [];
  args = [];
  env = [];
  env_from = [];
  volume_mounts = [];
  volume_devices = [];
  resources = none;
  liveness_probe = none;
  readiness_probe = none;
  startup_probe = none;
  lifecycle = none;
  security_context = none;
  ports = [];
}

-- A pod with an init container and a main one; the phase and the main image id vary.
abbrev pub pod : Text → Text → Pod
pod phase id = record {
  meta = plain_meta (codes "shop") (codes "web-1");
  spec = record {
    init_containers = container (codes "setup") (codes "busybox:1") ∷ [];
    containers = container (codes "web") (codes "nginx:1.2") ∷ [];
    ephemeral_containers = [];
    volumes = [];
    node_selector = [];
    tolerations = [];
    affinity = none;
    topology_spread_constraints = [];
    scheduling_gates = [];
    readiness_gates = [];
    image_pull_secrets = [];
    host_aliases = [];
  };
  status = record {
    phase = phase;
    conditions = [];
    pod_ips = [];
    init_container_statuses = [];
    container_statuses =
        record { name = codes "web"; image_id = id; last_termination_state = none } ∷ [];
    ephemeral_container_statuses = [];
  };
}

abbrev pub no_sets : ReplicaSets
no_sets = none

abbrev pub empty_log : Log
empty_log = record { next_event_id = 0; records = [] }

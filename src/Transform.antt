-- ===== src/Transform.antt =====
-- What is stripped before an object enters an informer's cache: internal/collector/transform.go. An
-- object of another type than the informer's is left as it is.
pub mod Pods
pub mod Unread
pub mod Custom
mod Tests
use scam.Base.{Option, none, some, List, [], ◌∷◌, map, Text, codes}
use scam.Kube.{
  Meta, Container, ContainerStatus, Pod, PodSpec, PodStatus, ReplicaSet, Service, EndpointSlice,
  Ingress, IngressClass, Unstructured,
}
use scam.Dynamic.{Nested}
use scam.Informer.{Any, typed, tombstone, other}

-- The three fields that every transform clears.
abbrev pub trim_object_meta : Meta → Meta
trim_object_meta m = record m { annotations = []; managed_fields = []; finalizers = [] }

unfoldable pub strip_container : Container → Container
strip_container c = record c {
  command = [];
  args = [];
  env = [];
  env_from = [];
  volume_mounts = [];
  volume_devices = [];
  resources = none;
  liveness_probe = none;
  readiness_probe = none;
  startup_probe = none;
  lifecycle = none;
  security_context = none;
  ports = [];
}

-- The common part of an ephemeral container has the fields of a container, and the same ones go.
abbrev strip_ephemeral : Container → Container
strip_ephemeral c = strip_container c

unfoldable pub clear_termination : ContainerStatus → ContainerStatus
clear_termination s = record s { last_termination_state = none }

unfoldable pub trim_spec : PodSpec → PodSpec
trim_spec spec = record {
  init_containers = map strip_container spec.init_containers;
  containers = map strip_container spec.containers;
  ephemeral_containers = map strip_ephemeral spec.ephemeral_containers;
  volumes = [];
  node_selector = [];
  tolerations = [];
  affinity = none;
  topology_spread_constraints = [];
  scheduling_gates = [];
  readiness_gates = [];
  image_pull_secrets = [];
  host_aliases = [];
}

unfoldable pub trim_status : PodStatus → PodStatus
trim_status status = record {
  phase = status.phase;
  conditions = [];
  pod_ips = [];
  init_container_statuses = map clear_termination status.init_container_statuses;
  container_statuses = map clear_termination status.container_statuses;
  ephemeral_container_statuses = map clear_termination status.ephemeral_container_statuses;
}

unfoldable pub trim_pod : Pod → Pod
trim_pod p = record {
  meta = trim_object_meta p.meta;
  spec = trim_spec p.spec;
  status = trim_status p.status;
}

unfoldable pub trim_service : Service → Service
trim_service s = record s { meta = trim_object_meta s.meta; conditions = [] }

unfoldable pub trim_ingress : Ingress → Ingress
trim_ingress i = record i { meta = trim_object_meta i.meta }

unfoldable pub trim_replica_set : ReplicaSet → ReplicaSet
trim_replica_set rs = record {
  meta = record rs.meta { annotations = []; managed_fields = []; finalizers = []; labels = [] };
  spec = none;
  status = none;
}

unfoldable pub trim_endpoint_slice : EndpointSlice → EndpointSlice
trim_endpoint_slice es = record es { meta = trim_object_meta es.meta }

-- TrimMeta, which main registers for IngressClasses.
unfoldable pub trim_meta : IngressClass → IngressClass
trim_meta ic = record ic { meta = trim_object_meta ic.meta }

-- The source's setters also write to the metadata in the object's map, which no emission reads from
-- there; here it is `meta` alone.
unfoldable pub trim_unstructured : Nested → Unstructured → Unstructured
trim_unstructured lib u =
    let cleared = lib.remove_nested_field u.object (codes "status" ∷ codes "conditions" ∷ []) in
    let fewer = lib.remove_nested_field cleared (codes "status" ∷ codes "listeners" ∷ []) in
    record {
      meta = trim_object_meta u.meta;
      object = lib.remove_nested_field fewer (codes "status" ∷ codes "parents" ∷ []);
    }

-- A transform, as an informer calls it on any object.
unfoldable pub transform : {A : Type 0} → (A → A) → Any A → Any A
transform trim (typed a) = typed (trim a)
transform trim x = x

-- ===== src/Kube/Workloads.antt =====
-- Pods and ReplicaSets.
use scam.Base.{Option, List, Text}
use scam.Kube.Values.{Value, Labels, Meta}

-- Also the common part of an ephemeral container, which has the same fields.
pub record Container : Type 0 where
  pub name : Text
  pub image : Text
  pub command : List Text
  pub args : List Text
  pub env : List Value
  pub env_from : List Value
  pub volume_mounts : List Value
  pub volume_devices : List Value
  pub resources : Option Value
  pub liveness_probe : Option Value
  pub readiness_probe : Option Value
  pub startup_probe : Option Value
  pub lifecycle : Option Value
  pub security_context : Option Value
  pub ports : List Value

pub record ContainerStatus : Type 0 where
  pub name : Text
  pub image_id : Text
  pub last_termination_state : Option Value

pub record PodSpec : Type 0 where
  pub init_containers : List Container
  pub containers : List Container
  pub ephemeral_containers : List Container
  pub volumes : List Value
  pub node_selector : Labels
  pub tolerations : List Value
  pub affinity : Option Value
  pub topology_spread_constraints : List Value
  pub scheduling_gates : List Value
  pub readiness_gates : List Value
  pub image_pull_secrets : List Value
  pub host_aliases : List Value

pub record PodStatus : Type 0 where
  pub phase : Text
  pub conditions : List Value
  pub pod_ips : List Value
  pub init_container_statuses : List ContainerStatus
  pub container_statuses : List ContainerStatus
  pub ephemeral_container_statuses : List ContainerStatus

pub record Pod : Type 0 where
  pub meta : Meta
  pub spec : PodSpec
  pub status : PodStatus

pub record ReplicaSet : Type 0 where
  pub meta : Meta
  pub spec : Option Value
  pub status : Option Value

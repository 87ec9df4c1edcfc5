-- ===== src/Kube.antt =====
-- The Kubernetes objects that the collector reads, with the fields that it reads or clears. An
-- int32 or int64 is kept as its bit pattern, a field that is only cleared as a dynamic `Value`.
mod Values
mod Workloads
mod Network
pub use Values.*
pub use Workloads.*
pub use Network.*

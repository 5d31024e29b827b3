-- ===== src/Cluster.antt =====
-- cluster/: leader election among the nodes of a cluster (mode "cluster", and "single").
pub mod Node
pub mod State
pub mod Leader
pub mod Rpc
pub mod Connect
pub mod Election
pub mod Safety
mod Tests
pub mod Scheduler
pub mod Heartbeat
pub mod Redis
pub mod Lifecycle
pub mod RemoteCall

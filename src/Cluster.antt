-- ===== src/Cluster.antt =====
-- The leader's job in the Consul cluster: src/daemon/Label.cpp, src/daemon/consul/ConsulEntity.cpp,
-- src/daemon/consul/Scheduler.cpp and the scheduling part of src/daemon/consul/ConsulConnection.cpp.
pub mod Label
pub mod LabelJson
pub mod Entity
pub mod Schedule
mod Rules
pub mod Quota
pub mod Placement
pub mod Capacity
pub mod Dispatch
pub mod Sync
pub mod Keyed
mod Examples

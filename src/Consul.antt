-- ===== src/Consul.antt =====
-- src/daemon/consul/ConsulConnection.cpp beside the scheduler: the leader's cycle, what a host does
-- with the topology that it reads, and the sessions with the election of the leader.
pub mod Session
pub mod Elected
pub mod Alive
pub mod Lead
pub mod Read
pub mod Cycle
pub mod Apps
pub mod Follow
pub mod Settled
pub mod Synced
pub mod Host
pub mod Offline
pub mod Converge
mod Examples
mod HostExamples
mod SessionExamples

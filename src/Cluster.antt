-- ===== src/Cluster.antt =====
-- Cluster routing: redis/src/cluster_handling.
pub mod Slot
pub mod Properties
pub mod ResponsePolicy
pub mod BaseRouting
pub mod Fanout
pub mod Routable
pub mod MultiShard
pub mod Routing
pub mod Aggregate
pub mod SlotRangeMap
pub mod SlotMap
pub mod Pipeline
pub mod Retry
pub mod RoundRobin
pub mod Topology
pub mod Address
pub mod Request
pub mod Inner
pub mod Connections
pub mod Blocking

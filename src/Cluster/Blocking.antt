-- ===== src/Cluster/Blocking.antt =====
-- A request to a single node on a blocking connection to a cluster:
-- redis/src/cluster_handling/sync_connection/mod.rs.
pub mod Connect
pub mod Loop
pub mod Calm
pub mod Ends

-- ===== src/Caching.antt =====
-- Client-side caching: redis/src/caching. Lru: the `lru` crate, as an interface. Shards: sharded_lru.rs
-- and statistics.rs. An `Instant` and a `Duration` are numbers of milliseconds, without bound.
pub mod Lru
pub mod Shards
pub mod Items
pub mod Changes
pub mod History
pub mod Reads
pub mod Counts
pub mod Manager
pub mod Commands
pub mod Prepare
pub mod Merge
pub mod Prepared
pub mod Sent
pub mod Answers
pub mod Served
pub mod Reuse

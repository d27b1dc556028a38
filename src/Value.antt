-- ===== src/Value.antt =====
-- Replies: redis/src/types.rs (`Value` and its methods), without the `num-bigint` feature.
pub mod Defs
pub mod Integer
pub mod Methods
pub mod Convert
pub mod Args
pub mod RoundTrip

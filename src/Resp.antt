-- ===== src/Resp.antt =====
-- The reply parser: redis/src/parser.rs.
pub mod Stream
pub mod Text
pub mod Parser
pub mod Digits
pub mod RoundTrip

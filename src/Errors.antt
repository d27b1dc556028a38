-- ===== src/Errors.antt =====
-- Errors: redis/src/errors.
pub mod Server
pub mod Redis
pub mod Retry

-- ===== src/Examples.antt =====
-- The theorems at concrete inputs.
mod Wire
mod Shards
mod Nodes
mod Tracker
mod Replies
mod Requests
mod Pipelines
mod Caches
mod Values
mod Blocking

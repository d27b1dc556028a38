-- ===== src/Caching/Served.antt =====
-- A pipeline through the cache: what is sent for it, and what its commands are answered with.
use redis_rs.Base.{ℕ, ◌≡◌, Bool, true, false, List, [], ◌∷◌, Bytes}
use redis_rs.Value.Defs.{Value, array, end, item, of_list, Outcome, ok, ◌>>=◌}
use redis_rs.Value.Convert.{Conversions}
use redis_rs.Cmd.{Cmd}
use redis_rs.Pipeline.{Pipeline}
use redis_rs.Caching.Lru.{LruCache}
use redis_rs.Caching.Shards.{ShardedLru}
use redis_rs.Caching.Manager.{CacheManager}
use redis_rs.Caching.Commands.{CacheablePipeline}
use redis_rs.Caching.Prepared.{AllPrepared}
use redis_rs.Caching.Sent.{all_sent}

-- The reply to what is sent for a pipeline, with the array of EXEC in a transaction, and what the
-- pipeline then returns.
abbrev pub server_result : Bool → List Value → Value
server_result true vs = array (item (array (of_list vs)) end)
server_result false vs = array (of_list vs)

abbrev pub pipeline_result : Bool → List Value → List Value
pipeline_result true vs = array (of_list vs) ∷ []
pipeline_result false vs = vs

module _ {L : Type 0} (lru : LruCache L) (hash : Bytes → ℕ) (conversions : Conversions)
    (m : CacheManager) (now later : ℕ) where
  abbrev Prepared :
      Pipeline → Outcome (CacheablePipeline × Pipeline × (ℕ × ℕ) × ShardedLru L) → Type 0
  Prepared requested (ok (cp, sent, counts, s)) =
      AllPrepared requested.commands cp.commands
      × (sent.commands ≡ all_sent m.cache_config.mode requested.commands cp.commands)
      × (cp.transaction_mode ≡ requested.transaction_mode)
  Prepared requested _ = Unit

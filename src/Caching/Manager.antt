-- ===== src/Caching/Manager.antt =====
-- `CacheManager` of redis/src/caching/cache_manager.rs with the configuration of
-- redis/src/caching/config.rs. The cache that managers share is passed on, and a handler sees one time.
use redis_rs.Base.{
  ℕ, suc, ◌+◌, ◌*◌, Bool, true, false, ◌&&◌, Option, none, some, List, [], ◌∷◌, ◌++◌, Bytes, codes,
  drop, bytes_eq, leb, ◌==◌, if◌then◌else◌,
}
use redis_rs.Value.Integer.{ℤ, pos}
use redis_rs.Value.Defs.{Value, array, PushKind, invalidate, Values, item, Outcome, ok, ◌>>=◌}
use redis_rs.Value.Convert.{Conversions, from_i64, from_bytes}
use redis_rs.Cmd.{Cmd, CommandCacheConfig, Arg, simple, cursor, args_iter}
use redis_rs.Caching.Lru.{LruCache}
use redis_rs.Caching.Shards
use redis_rs.Caching.Shards.{ShardedLru}

pub data CacheMode : Type 0 where
  all opt_in : CacheMode

pub record CacheConfig : Type 0 where
  pub mode : CacheMode
  pub size : ℕ
  pub default_client_ttl : ℕ

-- `CacheConfig::new`: 10,000 keys and 30 minutes.
unfoldable pub default_config : CacheConfig
default_config = record { mode = all; size = 10000; default_client_ttl = 1000 * 60 * 30 }

pub record CacheManager : Type 0 where
  pub cache_config : CacheConfig
  pub epoch : ℕ

-- The earlier of the times that the server's and the client's time to live give.
unfoldable pub expire_time_of : Outcome ℤ → ℕ → ℕ → ℕ
expire_time_of (ok (pos (suc pttl))) client_side now =
    if leb (now + suc pttl) client_side then now + suc pttl else client_side
expire_time_of _ client_side now = client_side

unfoldable pub client_ttl : Option CommandCacheConfig → ℕ → ℕ
client_ttl none default_ttl = default_ttl
client_ttl (some config) default_ttl = elim config.client_side_ttl [
  | none ↦ default_ttl
  | some ttl ↦ ttl
]

unfoldable pub calculate_expiration_time : CacheManager → Cmd → ℕ → ℕ
unfolding client_ttl
calculate_expiration_time m c now = now + client_ttl c.cache m.cache_config.default_client_ttl

-- The first key of an invalidation message.
unfoldable pub first_key : Values → Option Value
first_key (item (array (item key keys)) rest) = some key
first_key _ = none

-- `is_multi_key`: the name, and that of the command for one key.
unfoldable pub is_multi_key : Bytes → Option (Bytes × Bytes)
unfolding bytes_eq
is_multi_key name =
    if bytes_eq name (codes "MGET")
    then some (codes "MGET", codes "GET")
    else if bytes_eq name (codes "JSON.MGET")
    then some (codes "JSON.MGET", codes "JSON.GET")
    else none

-- `prepare_key_buffer`: what is then in the buffer.
unfoldable pub prepare_key_buffer : Bytes → Bytes → Option Bytes → Bytes
prepare_key_buffer name key none = name ++ key
prepare_key_buffer name key (some path) = name ++ (key ++ path)

-- The simple arguments among arguments.
unfoldable pub simple_arguments : List (Arg Bytes) → List Bytes
simple_arguments [] = []
simple_arguments (simple a ∷ args) = a ∷ simple_arguments args
simple_arguments (cursor ∷ args) = simple_arguments args

unfoldable pub extract_simple_arguments : Cmd → List Bytes
unfolding simple_arguments args_iter
extract_simple_arguments c = simple_arguments (drop 1 (args_iter c))

-- `Vec::pop`, with the item that it gives.
unfoldable pub pop_last : List Bytes → List Bytes × Option Bytes
pop_last [] = ([], none)
pop_last (x ∷ []) = ([], some x)
pop_last (x ∷ y ∷ xs) = (x ∷ (pop_last (y ∷ xs)).0, (pop_last (y ∷ xs)).1)

-- The keys of a command, and the path after them if it has one.
unfoldable pub keys_and_path : Bool → List Bytes → List Bytes × Option Bytes
unfolding pop_last
keys_and_path true arguments = pop_last arguments
keys_and_path false arguments = (arguments, none)

-- `b` starts with `a`.
unfoldable pub starts_with : Bytes → Bytes → Bool
starts_with [] b = true
starts_with (x ∷ a) [] = false
starts_with (x ∷ a) (y ∷ b) = x == y && starts_with a b

module _ {L : Type 0} (lru : LruCache L) (hash : Bytes → ℕ) (conversions : Conversions) where
  -- A new manager with its cache, and one that shares the cache of another.
  unfoldable pub new_manager : CacheConfig → Outcome (CacheManager × ShardedLru L)
  unfolding Shards.new Shards.increase_epoch
  new_manager config = do
    s ← Shards.new lru hash config.size
    ok (
      record { cache_config = config; epoch = (Shards.increase_epoch lru hash s).0 },
      (Shards.increase_epoch lru hash s).1,
    )

  unfoldable pub clone_and_increase_epoch :
      CacheManager → ShardedLru L → CacheManager × ShardedLru L
  unfolding Shards.increase_epoch
  clone_and_increase_epoch m s = (
    record m { epoch = (Shards.increase_epoch lru hash s).0 },
    (Shards.increase_epoch lru hash s).1,
  )

  unfoldable pub get : CacheManager → Bytes → Bytes → ℕ → ShardedLru L → Option Value × ShardedLru L
  get m key cmd now s = Shards.get lru hash key cmd m.epoch now s

  unfoldable pub insert :
      CacheManager → Bytes → Bytes → Value → ℕ → Value → ℕ → ShardedLru L → ShardedLru L
  unfolding expire_time_of
  insert m key cmd value client_side pttl now s =
      Shards.insert lru hash key cmd value
        (expire_time_of (from_i64 conversions pttl) client_side now) m.epoch s

  unfoldable pub invalidate_key : Outcome Bytes → ShardedLru L → ShardedLru L
  invalidate_key (ok key) s = Shards.invalidate lru hash key s
  invalidate_key _ s = s

  unfoldable pub handle_push_value : PushKind → Values → ShardedLru L → ShardedLru L
  unfolding first_key invalidate_key
  handle_push_value invalidate args s = elim (first_key args) [
    | none ↦ s
    | some key ↦ invalidate_key (from_bytes conversions key) s
  ]
  handle_push_value _ args s = s

-- ===== src/Caching/Commands.antt =====
-- What is kept of a request while its reply is awaited: redis/src/caching/cmd.rs.
use redis_rs.Base.{
  ℕ, Bool, true, false, none, List, [], ◌∷◌, Bytes, codes, length, set, ltb, if◌then◌else◌,
}
use redis_rs.Errors.Redis.{general, unexpected_return_type}
use redis_rs.Value.Defs.{
  Value, array, server_error, to_list, of_list, Outcome, ok, err, panicked, ◌>>=◌,
}
use redis_rs.Value.Convert.{Conversions, from_vec_value, from_tuple}
use redis_rs.Cmd.{Cmd, write_arg, new}
use redis_rs.Pipeline.{Pipeline, add_command, named}
use redis_rs.Caching.Lru.{LruCache}
use redis_rs.Caching.Shards.{ShardedLru}
use redis_rs.Caching.Manager.{CacheMode, all, opt_in, CacheManager}
use redis_rs.Caching.Manager

pub record SingleCachedCommand : Type 0 where
  pub redis_key : Bytes
  pub cmd_key : Bytes
  pub cmd : Cmd
  pub client_side_expire : ℕ

pub record MultipleCachedCommandPart : Type 0 where
  pub redis_key : Bytes
  pub cmd_key : Bytes

pub record Multiple : Type 0 where
  pub command_name : Bytes
  pub commands : List (ℕ × MultipleCachedCommandPart)
  pub response : List Value
  pub client_side_expire : ℕ
  pub tail_args : List Bytes

pub data CacheableCommand : Type 0 where
  single : SingleCachedCommand → CacheableCommand
  multiple : Multiple → CacheableCommand

pub data PrepCacheItem : Type 0 where
  cached : Value → PrepCacheItem
  not_cached : CacheableCommand → PrepCacheItem
  not_cacheable : PrepCacheItem

pub data CachingResult : Type 0 where
  prepared : PrepCacheItem → CachingResult
  ignored : CachingResult

pub record CacheablePipeline : Type 0 where
  pub commands : List CachingResult
  pub transaction_mode : Bool

-- The keys of the parts of a command.
unfoldable pub part_keys : List (ℕ × MultipleCachedCommandPart) → List Bytes
part_keys [] = []
part_keys ((i, part) ∷ parts) = part.redis_key ∷ part_keys parts

unfoldable pub add_args : List Bytes → Cmd → Cmd
unfolding write_arg
add_args [] c = c
add_args (a ∷ args) c = add_args args (write_arg c a)

-- `Cmd::pttl`.
unfoldable pub pttl : Bytes → Cmd
unfolding named write_arg
pttl key = write_arg (named (codes "PTTL")) key

unfoldable pub add_pttls : List Bytes → Pipeline → Pipeline
unfolding add_command
add_pttls [] p = p
add_pttls (key ∷ keys) p = add_pttls keys (add_command (pttl key) p)

unfoldable pub client_caching_yes : Cmd
unfolding add_args new
client_caching_yes = add_args (codes "CLIENT" ∷ codes "CACHING" ∷ codes "YES" ∷ []) new

unfoldable pub pack_opt_in : CacheMode → Pipeline → Pipeline
unfolding add_command
pack_opt_in all p = p
pack_opt_in opt_in p = add_command client_caching_yes p

-- The command for the keys that are not cached.
unfoldable pub remaining_command : Multiple → Cmd
unfolding add_args named
remaining_command m = add_args m.tail_args (add_args (part_keys m.commands) (named m.command_name))

unfoldable pub pack_command : CacheMode → CacheableCommand → Pipeline → Pipeline
unfolding pack_opt_in add_command add_pttls
pack_command mode (single c) p =
    add_command c.cmd (add_command (pttl c.redis_key) (pack_opt_in mode p))
pack_command mode (multiple m) p =
    add_pttls (part_keys m.commands) (add_command (remaining_command m) (pack_opt_in mode p))

-- The reply, and those after it.
unfoldable pub get_next_reply : List Value → Outcome (Value × List Value)
get_next_reply [] = err (general unexpected_return_type "Expected Value from server" none)
get_next_reply (v ∷ vs) = ok (v, vs)

-- Skips the reply to `CLIENT CACHING YES`.
unfoldable pub skip_opt_in : CacheMode → List Value → Outcome (List Value)
unfolding get_next_reply
skip_opt_in all replies = ok replies
skip_opt_in opt_in replies = do next ← get_next_reply replies; ok next.1

module _ {L : Type 0} (lru : LruCache L) (hash : Bytes → ℕ) (conversions : Conversions)
    (m : CacheManager) (now : ℕ) where
  -- A server error is not kept.
  unfoldable pub insert_reply : Bytes → Bytes → Value → ℕ → Value → ShardedLru L → ShardedLru L
  insert_reply key cmd (server_error e) expire ttl s = s
  insert_reply key cmd v expire ttl s =
      Manager.insert lru hash conversions m key cmd v expire ttl now s

  -- What a resolution returns: the reply, the replies that are left and the cache.
  abbrev pub Resolved : Type 0
  Resolved = Value × List Value × ShardedLru L

  unfoldable pub resolve_single :
      SingleCachedCommand → List Value → ShardedLru L → Outcome (Value × List Value × ShardedLru L)
  unfolding insert_reply
  resolve_single c (ttl ∷ reply ∷ rest) s =
      ok (reply, rest, insert_reply c.redis_key c.cmd_key reply c.client_side_expire ttl s)
  resolve_single c _ s = err (general unexpected_return_type "Expected two Value from server" none)

  -- The loop over `zip(zip(mget_values, replies), commands)`, which takes a value first, then a
  -- reply, then a command, and stops at the first that is missing. The indices are within the response
  -- or the write panics.
  unfoldable pub fill :
      ℕ
      → List Value
      → List Value
      → List (ℕ × MultipleCachedCommandPart)
      → List Value
      → ShardedLru L
      → Outcome (List Value × List Value × ShardedLru L)
  unfolding insert_reply
  fill expire [] replies parts response s = ok (response, replies, s)
  fill expire (v ∷ vs) [] parts response s = ok (response, [], s)
  fill expire (v ∷ vs) (ttl ∷ replies) [] response s = ok (response, replies, s)
  fill expire (v ∷ vs) (ttl ∷ replies) ((i, part) ∷ parts) response s =
      let rest =
        fill expire vs replies parts (set response i v)
          (insert_reply part.redis_key part.cmd_key v expire ttl s) in
      if ltb i (length response) then rest else panicked

  unfoldable pub resolve_multiple :
      Multiple → List Value → ShardedLru L → Outcome (Value × List Value × ShardedLru L)
  unfolding fill
  resolve_multiple c (array vs ∷ replies) s = do
    filled ← fill c.client_side_expire (to_list vs) replies c.commands c.response s
    ok (array (of_list filled.0), filled.1, filled.2)
  resolve_multiple c _ s =
      err (general unexpected_return_type "Expected Value::Array from server" none)

  unfoldable pub resolve_command :
      CacheableCommand → List Value → ShardedLru L → Outcome (Value × List Value × ShardedLru L)
  unfolding resolve_single resolve_multiple
  resolve_command (single c) replies s = resolve_single c replies s
  resolve_command (multiple c) replies s = resolve_multiple c replies s

  -- `CacheableCommand::resolve`.
  unfoldable pub resolve :
      CacheableCommand → List Value → ShardedLru L → Outcome (Value × List Value × ShardedLru L)
  unfolding skip_opt_in resolve_command
  resolve c replies s = do
    replies' ← skip_opt_in m.cache_config.mode replies
    resolve_command c replies' s

  unfoldable pub resolve_item :
      CachingResult → List Value → ShardedLru L → Outcome (Value × List Value × ShardedLru L)
  unfolding resolve get_next_reply
  resolve_item (prepared (cached v)) replies s = ok (v, replies, s)
  resolve_item (prepared (not_cached c)) replies s = resolve c replies s
  resolve_item (prepared not_cacheable) replies s = do
    next ← get_next_reply replies
    ok (next.0, next.1, s)
  resolve_item ignored replies s = do next ← get_next_reply replies; ok (next.0, next.1, s)

  unfoldable pub resolve_items :
      List CachingResult → List Value → ShardedLru L → Outcome (List Value × ShardedLru L)
  unfolding resolve_item
  resolve_items [] replies s = ok ([], s)
  resolve_items (r ∷ rs) replies s = do
    first ← resolve_item r replies s
    others ← resolve_items rs first.1 first.2
    ok (first.0 ∷ others.0, others.1)

  -- With a transaction, the replies are those in the reply to EXEC.
  unfoldable pub replies_of : Bool → Value → Outcome (List Value)
  unfolding from_vec_value from_tuple
  replies_of true v = from_tuple conversions.debug (from_vec_value conversions.debug) v
  replies_of false v = from_vec_value conversions.debug v

  -- `CacheablePipeline::resolve`.
  unfoldable pub resolve_pipeline :
      CacheablePipeline → Value → ShardedLru L → Outcome (List Value × ShardedLru L)
  unfolding resolve_items replies_of
  resolve_pipeline p v s = do
    replies ← replies_of p.transaction_mode v
    response ← resolve_items p.commands replies s
    ok (if p.transaction_mode then array (of_list response.0) ∷ [] else response.0, response.1)

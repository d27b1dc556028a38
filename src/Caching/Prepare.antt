-- ===== src/Caching/Prepare.antt =====
-- The requests that the cache answers, wholly or in part: `get_cached_cmd` and `get_cached_pipeline` of
-- redis/src/caching/cache_manager.rs.
use redis_rs.Base.{
  ℕ, ◌+◌, Bool, true, false, Option, none, some, List, [], ◌∷◌, Bytes, codes, length, ltb,
  if◌then◌else◌,
}
use redis_rs.Value.Defs.{Value, nil, array, of_list, Outcome, ok, ◌>>=◌}
use redis_rs.Value.Convert.{Conversions}
use redis_rs.Cmd.{Cmd, arg_idx}
use redis_rs.Cmd.Pack.{cmd_len}
use redis_rs.Pipeline.{Pipeline, empty, add_command, atomic, contains}
use redis_rs.Cluster.Properties.{is_cachable_cmd}
use redis_rs.Caching.Lru.{LruCache}
use redis_rs.Caching.Shards.{ShardedLru}
use redis_rs.Caching.Manager.{
  CacheMode, all, opt_in, CacheManager, calculate_expiration_time, is_multi_key, prepare_key_buffer,
  extract_simple_arguments, keys_and_path, starts_with,
}
use redis_rs.Caching.Manager
use redis_rs.Caching.Commands.{
  MultipleCachedCommandPart, single, multiple, PrepCacheItem, cached, not_cached, not_cacheable,
  CachingResult, prepared, ignored, CacheablePipeline, pack_command,
}

unfoldable pub has_opt_in : Cmd → Bool
has_opt_in c = elim c.cache [ none ↦ false | some config ↦ config.enable_cache ]

unfoldable pub tail_args_of : Option Bytes → List Bytes
tail_args_of none = []
tail_args_of (some path) = path ∷ []

module _ {L : Type 0} (lru : LruCache L) (hash : Bytes → ℕ) (conversions : Conversions)
    (m : CacheManager) (now : ℕ) where
  -- The loop of `process_multi_key_arguments` from the index `i`: the parts to ask for and the response.
  unfoldable pub process_keys :
      Bytes
      → Option Bytes
      → ℕ
      → List Bytes
      → ShardedLru L
      → List (ℕ × MultipleCachedCommandPart) × List Value × ShardedLru L
  unfolding prepare_key_buffer
  process_keys name path i [] s = ([], [], s)
  process_keys name path i (key ∷ keys) s =
      let (found, s') =
        Manager.get lru hash conversions m key (prepare_key_buffer name key path) now s in
      let (parts, response, s'') = process_keys name path (i + 1) keys s' in
      elim found [
        | some v ↦ (parts, v ∷ response, s'')
        | none ↦ (
          (i, record { redis_key = key; cmd_key = prepare_key_buffer name key path }) ∷ parts,
          nil ∷ response,
          s'',
        )
      ]

  unfoldable pub multi_key_item :
      Bytes
      → ℕ
      → Option Bytes
      → List (ℕ × MultipleCachedCommandPart) × List Value × ShardedLru L
      → PrepCacheItem × ShardedLru L
  unfolding tail_args_of
  multi_key_item name expire path ([], response, s) = (cached (array (of_list response)), s)
  multi_key_item name expire path (part ∷ parts, response, s) = (
    not_cached (
        multiple (record {
          command_name = name;
          commands = part ∷ parts;
          response = response;
          client_side_expire = expire;
          tail_args = tail_args_of path;
        })),
    s,
  )

  -- For the keys of the command and the path after them.
  unfoldable pub handle_multi_key_command :
      Cmd → Bytes → Bytes → ℕ → ShardedLru L → PrepCacheItem × ShardedLru L
  unfolding extract_simple_arguments keys_and_path starts_with process_keys multi_key_item
  handle_multi_key_command c name single_name expire s =
      let (keys, path) =
        keys_and_path (starts_with (codes "JSON") name) (extract_simple_arguments c) in
      multi_key_item name expire path (process_keys single_name path 0 keys s)

  unfoldable pub single_key_item :
      Cmd → ℕ → Bytes → Option Value × ShardedLru L → PrepCacheItem × ShardedLru L
  single_key_item c expire key (some v, s) = (cached v, s)
  single_key_item c expire key (none, s) = (
    not_cached (
        single
          (record { redis_key = key; cmd_key = c.buffer; cmd = c; client_side_expire = expire })),
    s,
  )

  unfoldable pub single_key_at :
      Cmd → ℕ → Option Bytes → ShardedLru L → PrepCacheItem × ShardedLru L
  unfolding single_key_item
  single_key_at c expire none s = (not_cacheable, s)
  single_key_at c expire (some key) s =
      single_key_item c expire key (Manager.get lru hash conversions m key c.buffer now s)

  unfoldable pub handle_single_key_command :
      Cmd → ℕ → ShardedLru L → Outcome (PrepCacheItem × ShardedLru L)
  handle_single_key_command c expire s = do key ← arg_idx c 1; ok (single_key_at c expire key s)

  unfoldable pub cached_by_name :
      Cmd → Bytes → ℕ → ShardedLru L → Outcome (PrepCacheItem × ShardedLru L)
  cached_by_name c name expire s = elim (is_multi_key name) [
    | some (name', single_name) ↦ ok (handle_multi_key_command c name' single_name expire s)
    | none ↦
        if is_cachable_cmd name then handle_single_key_command c expire s else ok (not_cacheable, s)
  ]

  unfoldable pub get_cached_cmd_inner : Cmd → ShardedLru L → Outcome (PrepCacheItem × ShardedLru L)
  get_cached_cmd_inner c s = if ltb (cmd_len c) 2 then ok (not_cacheable, s) else do
    name ← arg_idx c 0
    elim name [
      | none ↦ ok (not_cacheable, s)
      | some n ↦ cached_by_name c n (calculate_expiration_time m c now) s
    ]

  unfoldable pub cached_in_mode :
      CacheMode → Cmd → ShardedLru L → Outcome (PrepCacheItem × ShardedLru L)
  cached_in_mode all c s = get_cached_cmd_inner c s
  cached_in_mode opt_in c s =
      if has_opt_in c then get_cached_cmd_inner c s else ok (not_cacheable, s)

  unfoldable pub get_cached_cmd : Cmd → ShardedLru L → Outcome (PrepCacheItem × ShardedLru L)
  unfolding cached_in_mode
  get_cached_cmd c s = cached_in_mode m.cache_config.mode c s

  -- What a command adds to the pipeline that is sent.
  unfoldable pub pack_item : Cmd → PrepCacheItem → Pipeline → Pipeline
  unfolding pack_command add_command
  pack_item c (cached v) p = p
  pack_item c (not_cached cc) p = pack_command m.cache_config.mode cc p
  pack_item c not_cacheable p = add_command c p

  -- What a command is prepared as, if it is not ignored.
  unfoldable pub prepare :
      Bool → Cmd → Pipeline → ShardedLru L → Outcome (CachingResult × Pipeline × ShardedLru L)
  unfolding get_cached_cmd pack_item
  prepare true c p s = ok (ignored, add_command c p, s)
  prepare false c p s = do
    found ← get_cached_cmd c s
    ok (prepared found.0, pack_item c found.0 p, found.1)

  -- The loop over the commands from the index `idx`.
  unfoldable pub prepare_commands :
      List ℕ
      → ℕ
      → List Cmd
      → Pipeline
      → ShardedLru L
      → Outcome (List CachingResult × Pipeline × ShardedLru L)
  unfolding prepare
  prepare_commands skipped idx [] p s = ok ([], p, s)
  prepare_commands skipped idx (c ∷ cs) p s = do
    first ← prepare (contains idx skipped) c p s
    others ← prepare_commands skipped (idx + 1) cs first.1 first.2
    ok (first.0 ∷ others.0, others.1, others.2)

  -- How many replies are skipped, and how many are awaited.
  unfoldable pub response_counts : Bool → Pipeline → ℕ × ℕ
  response_counts true p = (length p.commands + 1, 1)
  response_counts false p = (0, length p.commands)

  unfoldable pub sealed : Bool → Pipeline → Pipeline
  unfolding atomic
  sealed true p = atomic p
  sealed false p = p

  unfoldable pub get_cached_pipeline :
      Pipeline → ShardedLru L → Outcome (CacheablePipeline × Pipeline × (ℕ × ℕ) × ShardedLru L)
  unfolding prepare_commands response_counts sealed empty
  get_cached_pipeline requested s = do
    done ← prepare_commands requested.ignored_commands 0 requested.commands empty s
    ok (
      record { commands = done.0; transaction_mode = requested.transaction_mode },
      sealed requested.transaction_mode done.1,
      response_counts requested.transaction_mode done.1,
      done.2,
    )

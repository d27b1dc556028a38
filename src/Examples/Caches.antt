-- ===== src/Examples/Caches.antt =====
-- The theorems on client-side caching at concrete inputs.
use redis_rs.Base.{
  ℕ, ◌+◌, ◌%◌, ◌≤◌, ◌≡◌, refl, inl, false, Option, none, some, List, [], ◌∷◌, ◌++◌, Bytes, codes,
  length, bytes_eq, bytes_eq_refl, one_of, if◌then◌else◌,
}
use redis_rs.Value.Integer.{pos}
use redis_rs.Value.Defs.{
  Value, nil, int, bulk_string, array, okay, invalidate, of_list, end, item, Outcome, ok,
}
use redis_rs.Value.Convert.{Conversions, from_i64}
use redis_rs.Cmd.{Cmd, new, write_arg, arg_idx, args_iter, slice}
use redis_rs.Cmd.Pack.{cmd_len}
use redis_rs.Cluster.Properties.{is_cachable_cmd}
use redis_rs.Cmd.Args.{write_args}
use redis_rs.Pipeline.{Pipeline, empty, add_command}
use redis_rs.Caching.Lru.{LruCache, CacheItem}
use redis_rs.Caching.Shards.{
  ShardedLru, get, usize_values, find_item, shard_sizes, insert, get_valid, get_shard, set_shard,
  promote_item, pop_item, count, shard_index, increase_hit, increase_miss, increase_invalidate,
  is_invalid, find_entry, set_entry,
}
use redis_rs.Caching.Shards
use redis_rs.Caching.History.{Event, inserted, invalidated, read, after, last_value, last_deadline}
use redis_rs.Caching.Reads.{get-last_value}
use redis_rs.Caching.Counts.{reads_of, hits_and_misses}
use redis_rs.Caching.Manager.{
  CacheMode, all, opt_in, CacheManager, expire_time_of, is_multi_key, handle_push_value,
  extract_simple_arguments, keys_and_path, starts_with,
}
use redis_rs.Caching.Commands.{cached, prepared, resolve_item, CacheablePipeline}
use redis_rs.Caching.Prepare.{get_cached_pipeline, get_cached_cmd, handle_multi_key_command}
use redis_rs.Caching.Merge.{
  merged, missing, looked_up, found_for, sent_back, handle_multi_key_command-merged,
}
use redis_rs.Caching.Reuse.{get_cached_cmd-insert, handle_push_value-first_key}
use redis_rs.Caching.Manager

abbrev put : Bytes → CacheItem → (Bytes → Option CacheItem) → Bytes → Option CacheItem
put key kept l other = if bytes_eq key other then some kept else l other

put_self :
    (key : Bytes) (kept : CacheItem) (l : Bytes → Option CacheItem) → put key kept l key ≡ some kept
put_self key kept l = rw (bytes_eq_refl key) refl

put_other :
    (key other : Bytes) (kept : CacheItem) (l : Bytes → Option CacheItem)
    → bytes_eq key other ≡ false
    → put key kept l other ≡ l other
put_other key other kept l ne = rw ne refl

-- A cache that forgets no key.
abbrev unbounded : LruCache (Bytes → Option CacheItem)
unbounded = record {
  new = λ size key. none;
  find = λ key l. l key;
  promote = λ key l. l;
  write = put;
  push = put;
  pop = λ key l other. if bytes_eq key other then none else l other;
  find-new = λ size key. refl;
  find-promote = λ key other l. refl;
  find-write_self = λ key kept l found. put_self key kept l;
  find-write_other = put_other;
  find-push_self = put_self;
  find-push_other = λ key other kept l ne. inl (put_other key other kept l ne);
  find-pop = λ key other l. refl;
}

-- A hash for the examples.
abbrev hash : Bytes → ℕ
hash key = length key

abbrev conversions : Conversions
conversions = record {
  debug = λ v. codes "a value";
  f64_as_i64 = λ d. pos d;
  f64_as_u8 = λ d. d % 256;
}

-- The cache that is made for 64 keys.
abbrev new_cache : ShardedLru (Bytes → Option CacheItem)
new_cache = record {
  shard_count = 32;
  shards = λ i key. none;
  statistics = record { hit = 0; miss = 0; invalidated = 0 };
  last_epoch = 0;
}

-- A key is stored twice, another invalidated, and the first read.
abbrev history : List Event
history =
    read (codes "k") (codes "GETk") 0 9
    ∷ invalidated (codes "j")
    ∷ inserted (codes "k") (codes "GETk") (int (pos 2)) 20 0
    ∷ inserted (codes "k") (codes "GETk") (int (pos 1)) 10 0
    ∷ []

get-last_value_example :
    (last_value (codes "k") (codes "GETk") 0 history ≡ some (int (pos 2)))
    × ((deadline : ℕ) × (last_deadline (codes "k") history ≡ some deadline) × (10 ≤ deadline))
unfolding Shards.new shard_sizes after insert Shards.invalidate get get_valid find_item get_shard
    set_shard promote_item pop_item count shard_index increase_hit increase_miss increase_invalidate
    is_invalid find_entry set_entry bytes_eq
get-last_value_example =
    get-last_value unbounded hash 64 new_cache history (codes "k") (codes "GETk") 0 10 (int (pos 2))
      refl refl

hits_and_misses_example :
    ((after unbounded hash new_cache history).statistics.hit
        + (after unbounded hash new_cache history).statistics.miss)
      % usize_values
    ≡ reads_of history % usize_values
unfolding Shards.new shard_sizes
hits_and_misses_example = hits_and_misses unbounded hash 64 new_cache history refl

abbrev manager : CacheManager
manager = record {
  cache_config = record { mode = all; size = 64; default_client_ttl = 1000 };
  epoch = 0;
}

abbrev command_of : List Bytes → Cmd
command_of args = write_args new args

-- `GETRANGE k 1 23` and `GETRANGE k 12 3` have the same data.
abbrev range_of : Bytes → Bytes → Cmd
range_of from to = command_of (codes "GETRANGE" ∷ codes "k" ∷ from ∷ to ∷ [])

get_cached_cmd-insert_example :
    (s : ShardedLru (Bytes → Option CacheItem)) × (get_cached_cmd unbounded hash conversions manager
        60
        (range_of (codes "12") (codes "3"))
        (Manager.insert unbounded hash conversions manager
          (codes "k")
          (range_of (codes "1") (codes "23")).buffer
          (bulk_string (codes "reply"))
          1000
          (int (pos 50))
          40
          new_cache)
      ≡ ok (cached (bulk_string (codes "reply")), s))
unfolding write_args write_arg new arg_idx args_iter one_of cmd_len is_multi_key is_cachable_cmd
    bytes_eq from_i64 expire_time_of
get_cached_cmd-insert_example =
    get_cached_cmd-insert unbounded hash conversions manager (range_of (codes "1") (codes "23"))
      (range_of (codes "12") (codes "3")) (codes "GETRANGE") (codes "k")
      (bulk_string (codes "reply")) (int (pos 50)) 1000 40 60 new_cache refl refl refl refl refl
      refl refl

handle_push_value-first_key_example :
    find_item unbounded hash (codes "j") (
      handle_push_value unbounded hash conversions invalidate
        (item (array (item (bulk_string (codes "k")) (item (bulk_string (codes "j")) end))) end)
        new_cache)
    ≡ (if bytes_eq (codes "k") (codes "j")
        then none
        else find_item unbounded hash (codes "j") new_cache)
handle_push_value-first_key_example =
    handle_push_value-first_key unbounded hash conversions (codes "k")
      (item (bulk_string (codes "j")) end) end (codes "j") new_cache

-- `MGET k j`.
abbrev mget : Cmd
mget = command_of (codes "MGET" ∷ codes "k" ∷ codes "j" ∷ [])

handle_multi_key_command-merged_example :
    (s : ShardedLru (Bytes → Option CacheItem)) × (resolve_item unbounded hash conversions manager 0
        (prepared
          (handle_multi_key_command unbounded hash conversions manager 0 mget
            (codes "MGET")
            (codes "GET")
            1000
            new_cache).0)
        (sent_back unbounded hash conversions manager 0 all
            (missing (
              found_for unbounded hash conversions manager 0 mget
                (codes "MGET")
                (codes "GET")
                new_cache))
            okay
            (int (pos 1) ∷ nil ∷ [])
            (int (pos 5) ∷ int (pos 6) ∷ [])
          ++ [])
        new_cache
      ≡ ok (
        array (
            of_list (
              merged
                (found_for unbounded hash conversions manager 0 mget
                  (codes "MGET")
                  (codes "GET")
                  new_cache)
                (int (pos 1) ∷ nil ∷ []))),
        [],
        s,
      ))
unfolding write_args write_arg new missing looked_up Manager.get get count find_item get_shard
    shard_index extract_simple_arguments args_iter slice keys_and_path starts_with bytes_eq
handle_multi_key_command-merged_example =
    handle_multi_key_command-merged unbounded hash conversions manager 0 mget (codes "MGET")
      (codes "GET") 1000 new_cache new_cache okay (int (pos 1) ∷ nil ∷ [])
      (int (pos 5) ∷ int (pos 6) ∷ []) [] refl refl

-- `GET k` and then `MGET k j`.
abbrev requested : Pipeline
requested = add_command mget (add_command (command_of (codes "GET" ∷ codes "k" ∷ [])) empty)

-- A server that replies to everything with two numbers.
abbrev two_numbers : ℕ → Cmd → Value
two_numbers n c = array (of_list (int (pos 1) ∷ int (pos 2) ∷ []))

abbrev Prepared : Type 0
Prepared = CacheablePipeline × Pipeline × (ℕ × ℕ) × ShardedLru (Bytes → Option CacheItem)

abbrev prepared_or : Prepared → Outcome Prepared → Prepared
prepared_or other (ok p) = p
prepared_or other _ = other

abbrev done : Prepared
done =
    prepared_or (record { commands = []; transaction_mode = false }, empty, (0, 0), new_cache)
      (get_cached_pipeline unbounded hash conversions manager 0 requested new_cache)

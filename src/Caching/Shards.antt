-- ===== src/Caching/Shards.antt =====
-- The cache: `ShardedLRU` of redis/src/caching/sharded_lru.rs, with the counters of
-- redis/src/caching/statistics.rs. The vector of shards, whose length never changes, is a function of
-- the index. The hash of a key is a parameter, and so is the time that `Instant::now` returns.
use redis_rs.Base.{
  ℕ, ◌+◌, ◌/◌, ◌%◌, Bool, not, ◌||◌, Option, none, some, List, [], ◌∷◌, length, Bytes, bytes_eq,
  leb, ltb, ◌==◌, if◌then◌else◌,
}
use redis_rs.Value.Defs.{Value, Outcome, ok, panicked}
use redis_rs.Caching.Lru.{LruCache, CacheItem, CacheCmdEntry}

-- A `usize` of 64 bits, in which `fetch_add` wraps around.
abbrev pub usize_values : ℕ
usize_values = 18446744073709551616

pub record Statistics : Type 0 where
  pub hit : ℕ
  pub miss : ℕ
  pub invalidated : ℕ

unfoldable pub increase_hit : ℕ → Statistics → Statistics
increase_hit n s = record s { hit = (s.hit + n) % usize_values }

unfoldable pub increase_miss : ℕ → Statistics → Statistics
increase_miss n s = record s { miss = (s.miss + n) % usize_values }

unfoldable pub increase_invalidate : ℕ → Statistics → Statistics
increase_invalidate n s = record s { invalidated = (s.invalidated + n) % usize_values }

pub record ShardedLru (L : Type 0) : Type 0 where
  pub shard_count : ℕ
  pub shards : ℕ → L
  pub statistics : Statistics
  pub last_epoch : ℕ

abbrev pub max_shard_count : ℕ
max_shard_count = 32

-- The number of shards, and the size of each.
unfoldable pub shard_sizes : ℕ → ℕ × ℕ
shard_sizes total =
    if leb max_shard_count total then (max_shard_count, total / max_shard_count) else (1, total)

-- The entry of a command among those of a key.
unfoldable pub find_entry : Bytes → List CacheCmdEntry → Option Value
find_entry cmd [] = none
find_entry cmd (e ∷ entries) = if bytes_eq e.cmd cmd then some e.value else find_entry cmd entries

-- The first entry of the command gets the value, or a new one is added.
unfoldable pub set_entry : Bytes → Value → List CacheCmdEntry → List CacheCmdEntry
set_entry cmd value [] = record { cmd = cmd; value = value } ∷ []
set_entry cmd value (e ∷ entries) =
    let rest = set_entry cmd value entries in
    if bytes_eq e.cmd cmd then record e { value = value } ∷ entries else e ∷ rest

unfoldable pub is_invalid : CacheItem → ℕ → ℕ → Bool
is_invalid item epoch now = not (item.epoch == epoch) || ltb item.expire_time now

abbrev pub fresh_item : Bytes → Value → ℕ → ℕ → CacheItem
fresh_item cmd value expire_time epoch = record {
  expire_time = expire_time;
  epoch = epoch;
  value_list = record { cmd = cmd; value = value } ∷ [];
}

module _ {L : Type 0} (lru : LruCache L) (hash : Bytes → ℕ) where
  -- `NonZeroUsize::new(shard_size).unwrap()` panics at 0.
  unfoldable pub new : ℕ → Outcome (ShardedLru L)
  unfolding shard_sizes
  new total =
      if (shard_sizes total).1 == 0
      then panicked
      else ok (record {
        shard_count = (shard_sizes total).0;
        shards = λ i. lru.new (shard_sizes total).1;
        statistics = record { hit = 0; miss = 0; invalidated = 0 };
        last_epoch = 0;
      })

  unfoldable pub shard_index : ShardedLru L → Bytes → ℕ
  shard_index s key = hash key % s.shard_count

  unfoldable pub get_shard : ShardedLru L → Bytes → L
  unfolding shard_index
  get_shard s key = s.shards (shard_index s key)

  -- What is done to the shard under its lock.
  unfoldable pub set_shard : Bytes → L → ShardedLru L → ShardedLru L
  unfolding shard_index
  set_shard key l s = record s { shards = λ i. if shard_index s key == i then l else s.shards i }

  unfoldable pub count : (Statistics → Statistics) → ShardedLru L → ShardedLru L
  count f s = record s { statistics = f s.statistics }

  unfoldable pub pop_item : Bytes → ShardedLru L → ShardedLru L
  unfolding get_shard set_shard
  pop_item key s = set_shard key (lru.pop key (get_shard s key)) s

  unfoldable pub promote_item : Bytes → ShardedLru L → ShardedLru L
  unfolding get_shard set_shard
  promote_item key s = set_shard key (lru.promote key (get_shard s key)) s

  unfoldable pub find_item : Bytes → ShardedLru L → Option CacheItem
  unfolding get_shard
  find_item key s = lru.find key (get_shard s key)

  -- `get`, at an item that was found.
  unfoldable pub get_valid :
      Bytes → Bytes → ℕ → ℕ → CacheItem → ShardedLru L → Option Value × ShardedLru L
  unfolding is_invalid find_entry
  get_valid key cmd epoch now item s =
      if is_invalid item epoch now
      then (
        none,
        pop_item key
            (count (increase_miss 1) (count (increase_invalidate (length item.value_list)) s)),
      )
      else elim (find_entry cmd item.value_list) [
        | some v ↦ (some v, count (increase_hit 1) s)
        | none ↦ (none, count (increase_miss 1) s)
      ]

  unfoldable pub get : Bytes → Bytes → ℕ → ℕ → ShardedLru L → Option Value × ShardedLru L
  unfolding get_valid
  get key cmd epoch now s = elim (find_item key s) [
    | none ↦ (none, count (increase_miss 1) s)
    | some item ↦ get_valid key cmd epoch now item (promote_item key s)
  ]

  unfoldable pub insert : Bytes → Bytes → Value → ℕ → ℕ → ShardedLru L → ShardedLru L
  insert key cmd value expire_time epoch s =
      let pushed =
        set_shard key (lru.push key (fresh_item cmd value expire_time epoch) (get_shard s key)) s in
      elim (find_item key s) [
        | none ↦ pushed
        | some item ↦
            if item.epoch == epoch
            then set_shard key
                (lru.write key
                  (record item {
                    expire_time = expire_time;
                    value_list = set_entry cmd value item.value_list;
                  })
                  (get_shard s key))
                s
            else pushed
      ]

  unfoldable pub invalidate : Bytes → ShardedLru L → ShardedLru L
  invalidate key s = elim (find_item key s) [
    | none ↦ pop_item key s
    | some item ↦ count (increase_invalidate (length item.value_list)) (pop_item key s)
  ]

  -- The epoch before the increase, which is the caller's.
  unfoldable pub increase_epoch : ShardedLru L → ℕ × ShardedLru L
  increase_epoch s = (s.last_epoch, record s { last_epoch = (s.last_epoch + 1) % usize_values })

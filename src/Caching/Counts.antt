-- ===== src/Caching/Counts.antt =====
-- The counters of the cache.
use redis_rs.Base.{
  ℕ, suc, ◌+◌, ◌%◌, ◌≡◌, ap, inl, inr, List, [], ◌∷◌, Bytes, Bool-cases, Option-cases, arith,
}
use redis_rs.Value.Defs.{Value, Outcome, ok}
use redis_rs.Caching.Lru.{LruCache, CacheItem}
use redis_rs.Caching.Shards.{
  usize_values, increase_hit, increase_miss, increase_invalidate, ShardedLru, new, set_shard, count,
  pop_item, promote_item, find_item, find_entry, is_invalid, get_valid, get, insert, invalidate,
}
use redis_rs.Caching.History.{Event, inserted, invalidated, read, step, after}

-- How many reads a history has.
unfoldable pub reads_of : List Event → ℕ
reads_of [] = 0
reads_of (read k c e now ∷ h) = suc (reads_of h)
reads_of (_ ∷ h) = reads_of h

module _ {L : Type 0} (lru : LruCache L) (hash : Bytes → ℕ) where
  abbrev answered : ShardedLru L → ℕ
  answered s = s.statistics.hit + s.statistics.miss

  get_valid-answered :
      (k c : Bytes) (e now : ℕ) (item : CacheItem) (s : ShardedLru L)
      → answered (get_valid lru hash k c e now item s).1 % usize_values
        ≡ (answered s + 1) % usize_values
  unfolding get_valid increase_hit increase_miss increase_invalidate count pop_item set_shard
  get_valid-answered k c e now item s = elim (Bool-cases (is_invalid item e now)) [
    | inl stale ↦ rw stale (omega arith)
    | inr good ↦ rw good (elim (Option-cases (find_entry c item.value_list)) [
      | inl absent ↦ rw absent (omega arith)
      | inr (v, found) ↦ rw found (omega arith)
    ])
  ]

  get-answered :
      (k c : Bytes) (e now : ℕ) (s : ShardedLru L)
      → answered (get lru hash k c e now s).1 % usize_values ≡ (answered s + 1) % usize_values
  unfolding get increase_miss count promote_item set_shard
  get-answered k c e now s = elim (Option-cases (find_item lru hash k s)) [
    | inl absent ↦ rw (absent, get) (omega arith)
    | inr (item, found) ↦
        rw (found, get) (get_valid-answered k c e now item (promote_item lru hash k s))
  ]

  insert-answered :
      (k c : Bytes) (v : Value) (x e : ℕ) (s : ShardedLru L)
      → answered (insert lru hash k c v x e s) ≡ answered s
  unfolding insert set_shard
  insert-answered k c v x e s = ground arith

  invalidate-answered :
      (k : Bytes) (s : ShardedLru L) → answered (invalidate lru hash k s) ≡ answered s
  unfolding invalidate count pop_item set_shard increase_invalidate
  invalidate-answered k s = ground arith

  after-answered :
      (s : ShardedLru L) (h : List Event)
      → answered (after lru hash s h) % usize_values ≡ (answered s + reads_of h) % usize_values
  unfolding after step reads_of
  after-answered s [] = omega arith
  after-answered s (inserted k c v x e ∷ h) =
      omega (arith, after-answered s h, insert-answered k c v x e (after lru hash s h))
  after-answered s (invalidated k ∷ h) =
      omega (arith, after-answered s h, invalidate-answered k (after lru hash s h))
  after-answered s (read k c e now ∷ h) =
      omega (arith, after-answered s h, get-answered k c e now (after lru hash s h))

  abbrev answered_in : Outcome (ShardedLru L) → ℕ
  answered_in (ok s) = answered s
  answered_in _ = 0

  answered_in-new : (total : ℕ) → answered_in (new lru hash total) ≡ 0
  unfolding new
  answered_in-new total = ground arith

  -- Whatever was done to a new cache, its hits and misses together are the reads, as far as 64 bits
  -- tell.
  pub hits_and_misses :
      (total : ℕ) (s : ShardedLru L) (h : List Event)
      → new lru hash total ≡ ok s
      → ((after lru hash s h).statistics.hit + (after lru hash s h).statistics.miss) % usize_values
        ≡ reads_of h % usize_values
  hits_and_misses total s h made =
      omega (arith, after-answered s h, ap answered_in made, answered_in-new total)

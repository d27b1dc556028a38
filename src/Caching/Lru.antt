-- ===== src/Caching/Lru.antt =====
-- What redis/src/caching/sharded_lru.rs takes from the `lru` crate, as an interface, and the items that
-- it keeps there. The crate is not part of the repository.
use redis_rs.Base.{ℕ, ◌≡◌, ◌⊎◌, false, Option, none, some, List, Bytes, bytes_eq, if◌then◌else◌}
use redis_rs.Value.Defs.{Value}

pub record CacheCmdEntry : Type 0 where
  pub cmd : Bytes
  pub value : Value

pub record CacheItem : Type 0 where
  pub expire_time : ℕ
  pub epoch : ℕ
  pub value_list : List CacheCmdEntry

-- Caches of a capacity of at least one key, which `new` is given.
pub record LruCache (L : Type 0) : Type 0 where
  pub new : ℕ → L
  -- The item of a key, as `peek` returns it.
  pub find : Bytes → L → Option CacheItem
  -- What `get_mut` does to the order of the keys.
  pub promote : Bytes → L → L
  -- What is written through the reference that `peek_mut` returns.
  pub write : Bytes → CacheItem → L → L
  -- `push` may evict another key.
  pub push : Bytes → CacheItem → L → L
  pub pop : Bytes → L → L
  pub find-new : (size : ℕ) (key : Bytes) → find key (new size) ≡ none
  pub find-promote : (key other : Bytes) (l : L) → find other (promote key l) ≡ find other l
  pub find-write_self :
      (key : Bytes) (item : CacheItem) (l : L) {old : CacheItem}
      → find key l ≡ some old
      → find key (write key item l) ≡ some item
  pub find-write_other :
      (key other : Bytes) (item : CacheItem) (l : L)
      → bytes_eq key other ≡ false
      → find other (write key item l) ≡ find other l
  pub find-push_self :
      (key : Bytes) (item : CacheItem) (l : L) → find key (push key item l) ≡ some item
  pub find-push_other :
      (key other : Bytes) (item : CacheItem) (l : L)
      → bytes_eq key other ≡ false
      → (find other (push key item l) ≡ find other l) ⊎ (find other (push key item l) ≡ none)
  pub find-pop :
      (key other : Bytes) (l : L)
      → find other (pop key l) ≡ (if bytes_eq key other then none else find other l)

-- ===== src/Caching/Items.antt =====
-- The item of a key in the sharded cache, after each change of a shard.
use redis_rs.Base.{
  ℕ, ◌≡◌, refl, ◌∙◌, subst, ◌⊎◌, inl, inr, false, none, some, Bytes, bytes_eq, bytes_eq_sound,
  bytes_eq_refl, ◌==◌, if◌then◌else◌, Bool-cases, arith,
}
use redis_rs.Caching.Lru.{LruCache, CacheItem}
use redis_rs.Caching.Shards.{
  ShardedLru, shard_index, get_shard, set_shard, pop_item, promote_item, find_item,
}

module _ {L : Type 0} (lru : LruCache L) (hash : Bytes → ℕ) where
  find_item-set_shard :
      (k j : Bytes) (l : L) (s : ShardedLru L)
      → find_item lru hash j (set_shard lru hash k l s) ≡ (
          if shard_index lru hash s k == shard_index lru hash s j
          then lru.find j l
          else find_item lru hash j s)
  unfolding find_item get_shard set_shard shard_index
  find_item-set_shard k j l s = ground arith

  pub find_item-set_self :
      (k : Bytes) (l : L) (s : ShardedLru L)
      → find_item lru hash k (set_shard lru hash k l s) ≡ lru.find k l
  find_item-set_self k l s = ground (arith, find_item-set_shard k k l s)

  -- A change of a shard that keeps the item of another key there keeps it everywhere.
  pub find_item-set_other :
      (k j : Bytes) (l : L) (s : ShardedLru L)
      → lru.find j l ≡ lru.find j (get_shard lru hash s k)
      → find_item lru hash j (set_shard lru hash k l s) ≡ find_item lru hash j s
  unfolding find_item get_shard shard_index
  find_item-set_other k j l s h = ground (arith, find_item-set_shard k j l s)

  find_item-set_lost :
      (k j : Bytes) (l : L) (s : ShardedLru L)
      → lru.find j l ≡ none
      → (find_item lru hash j (set_shard lru hash k l s) ≡ find_item lru hash j s)
        ⊎ (find_item lru hash j (set_shard lru hash k l s) ≡ none)
  find_item-set_lost k j l s h = ground (arith, find_item-set_shard k j l s)

  pub find_item-push_other :
      (k j : Bytes) (item : CacheItem) (s : ShardedLru L)
      → bytes_eq k j ≡ false
      → (find_item lru hash j (set_shard lru hash k (lru.push k item (get_shard lru hash s k)) s)
          ≡ find_item lru hash j s)
        ⊎ (find_item lru hash j (set_shard lru hash k (lru.push k item (get_shard lru hash s k)) s)
            ≡ none)
  find_item-push_other k j item s ne =
      elim (lru.find-push_other k j item (get_shard lru hash s k) ne) [
        | inl kept ↦ inl (find_item-set_other k j (lru.push k item (get_shard lru hash s k)) s kept)
        | inr lost ↦ find_item-set_lost k j (lru.push k item (get_shard lru hash s k)) s lost
      ]

  pub find_item-promote_item :
      (k j : Bytes) (s : ShardedLru L)
      → find_item lru hash j (promote_item lru hash k s) ≡ find_item lru hash j s
  unfolding promote_item
  find_item-promote_item k j s =
      find_item-set_other k j (lru.promote k (get_shard lru hash s k)) s
        (lru.find-promote k j (get_shard lru hash s k))

  pub find_item-pop_item :
      (k j : Bytes) (s : ShardedLru L)
      → find_item lru hash j (pop_item lru hash k s)
        ≡ (if bytes_eq k j then none else find_item lru hash j s)
  unfolding pop_item
  find_item-pop_item k j s = elim (Bool-cases (bytes_eq k j)) [
    | inl same ↦ rw same (
        subst (λ j'. find_item lru hash j' (pop_item lru hash k s) ≡ none) (bytes_eq_sound k j same)
          (find_item-set_self k (lru.pop k (get_shard lru hash s k)) s
            ∙ lru.find-pop k k (get_shard lru hash s k)
            ∙ rw (bytes_eq_refl k) refl))
    | inr other ↦ rw other (
        find_item-set_other k j (lru.pop k (get_shard lru hash s k)) s
          (lru.find-pop k j (get_shard lru hash s k) ∙ rw other refl))
  ]

  pub find_item-push_self :
      (k : Bytes) (item : CacheItem) (s : ShardedLru L)
      → find_item lru hash k (set_shard lru hash k (lru.push k item (get_shard lru hash s k)) s)
        ≡ some item
  find_item-push_self k item s =
      find_item-set_self k (lru.push k item (get_shard lru hash s k)) s
      ∙ lru.find-push_self k item (get_shard lru hash s k)

  pub find_item-write_self :
      (k : Bytes) (item old : CacheItem) (s : ShardedLru L)
      → find_item lru hash k s ≡ some old
      → find_item lru hash k (set_shard lru hash k (lru.write k item (get_shard lru hash s k)) s)
        ≡ some item
  unfolding find_item
  find_item-write_self k item old s found =
      find_item-set_self k (lru.write k item (get_shard lru hash s k)) s
      ∙ lru.find-write_self k item (get_shard lru hash s k) found

  pub find_item-write_other :
      (k j : Bytes) (item : CacheItem) (s : ShardedLru L)
      → bytes_eq k j ≡ false
      → find_item lru hash j (set_shard lru hash k (lru.write k item (get_shard lru hash s k)) s)
        ≡ find_item lru hash j s
  find_item-write_other k j item s ne =
      find_item-set_other k j (lru.write k item (get_shard lru hash s k)) s
        (lru.find-write_other k j item (get_shard lru hash s k) ne)

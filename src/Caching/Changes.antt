-- ===== src/Caching/Changes.antt =====
-- The item of a key after each operation of the sharded cache.
use redis_rs.Base.{
  ℕ, ◌≡◌, refl, ◌∙◌, subst, ◌⊎◌, inl, inr, false, Option, none, some, Bytes, length, bytes_eq, ◌==◌,
  if◌then◌else◌, Bool-cases, Option-cases, arith,
}
use redis_rs.Value.Defs.{Value}
use redis_rs.Caching.Lru.{LruCache, CacheItem}
use redis_rs.Caching.Shards.{
  Statistics, increase_hit, increase_miss, increase_invalidate, ShardedLru, count, pop_item,
  promote_item, find_item, find_entry, set_entry, is_invalid, get_valid, get, fresh_item, insert,
  invalidate,
}
use redis_rs.Caching.Items.{
  find_item-push_self, find_item-push_other, find_item-write_self, find_item-write_other,
  find_item-promote_item, find_item-pop_item,
}

module _ {L : Type 0} (lru : LruCache L) (hash : Bytes → ℕ) where
  -- The item that an insertion leaves, of what it found.
  unfoldable pub stored : Bytes → Value → ℕ → ℕ → Option CacheItem → CacheItem
  unfolding set_entry
  stored c v expire e none = fresh_item c v expire e
  stored c v expire e (some item) =
      if item.epoch == e
      then record item { expire_time = expire; value_list = set_entry c v item.value_list }
      else fresh_item c v expire e

  pub find_item-insert_self :
      (k c : Bytes) (v : Value) (expire e : ℕ) (s : ShardedLru L)
      → find_item lru hash k (insert lru hash k c v expire e s)
        ≡ some (stored c v expire e (find_item lru hash k s))
  unfolding insert stored
  find_item-insert_self k c v expire e s = elim (Option-cases (find_item lru hash k s)) [
    | inl absent ↦ rw (absent, insert) (find_item-push_self lru hash k (fresh_item c v expire e) s)
    | inr (item, found) ↦
        rw (found, insert)
          (elim (Bool-cases (item.epoch == e)) [
            | inl same ↦ rw same (
                find_item-write_self lru hash k
                  (record item { expire_time = expire; value_list = set_entry c v item.value_list })
                  item s found)
            | inr other ↦ rw other (find_item-push_self lru hash k (fresh_item c v expire e) s)
          ])
  ]

  pub find_item-insert_other :
      (k c : Bytes) (v : Value) (expire e : ℕ) (s : ShardedLru L) (j : Bytes)
      → bytes_eq k j ≡ false
      → (find_item lru hash j (insert lru hash k c v expire e s) ≡ find_item lru hash j s)
        ⊎ (find_item lru hash j (insert lru hash k c v expire e s) ≡ none)
  unfolding insert
  find_item-insert_other k c v expire e s j ne = elim (Option-cases (find_item lru hash k s)) [
    | inl absent ↦
        rw (absent, insert) (find_item-push_other lru hash k j (fresh_item c v expire e) s ne)
    | inr (item, found) ↦
        rw (found, insert)
          (elim (Bool-cases (item.epoch == e)) [
            | inl same ↦ rw same (
                inl (
                  find_item-write_other lru hash k j
                    (record item {
                      expire_time = expire;
                      value_list = set_entry c v item.value_list;
                    })
                    s ne))
            | inr other ↦
                rw other (find_item-push_other lru hash k j (fresh_item c v expire e) s ne)
          ])
  ]

  pub find_item-count :
      (f : Statistics → Statistics) (j : Bytes) (s : ShardedLru L)
      → find_item lru hash j (count lru hash f s) ≡ find_item lru hash j s
  unfolding find_item count
  find_item-count f j s = refl

  -- What is read at an item, which only the validity and the entries of the item decide.
  pub get_valid-value :
      (k c : Bytes) (e now : ℕ) (item : CacheItem) (s : ShardedLru L)
      → (get_valid lru hash k c e now item s).0
        ≡ (if is_invalid item e now then none else find_entry c item.value_list)
  unfolding get_valid
  get_valid-value k c e now item s = elim (Bool-cases (is_invalid item e now)) [
    | inl stale ↦ rw stale refl
    | inr good ↦ rw good (elim (Option-cases (find_entry c item.value_list)) [
      | inl absent ↦ rw absent refl
      | inr (v, found) ↦ rw found refl
    ])
  ]

  find_item-get_valid :
      (k c : Bytes) (e now : ℕ) (item : CacheItem) (s : ShardedLru L) (j : Bytes)
      → (find_item lru hash j (get_valid lru hash k c e now item s).1 ≡ find_item lru hash j s)
        ⊎ (find_item lru hash j (get_valid lru hash k c e now item s).1 ≡ none)
  unfolding get_valid
  find_item-get_valid k c e now item s j = elim (Bool-cases (is_invalid item e now)) [
    | inl stale ↦
        rw stale (rw (find_item-pop_item, find_item-count, find_item-count) (ground arith))
    | inr good ↦ rw good (elim (Option-cases (find_entry c item.value_list)) [
      | inl absent ↦ rw absent (inl (find_item-count (increase_miss 1) j s))
      | inr (v, found) ↦ rw found (inl (find_item-count (increase_hit 1) j s))
    ])
  ]

  -- A read keeps an item or drops it.
  pub find_item-get :
      (k c : Bytes) (e now : ℕ) (s : ShardedLru L) (j : Bytes)
      → (find_item lru hash j (get lru hash k c e now s).1 ≡ find_item lru hash j s)
        ⊎ (find_item lru hash j (get lru hash k c e now s).1 ≡ none)
  unfolding get
  find_item-get k c e now s j = elim (Option-cases (find_item lru hash k s)) [
    | inl absent ↦ rw (absent, get) (inl (find_item-count (increase_miss 1) j s))
    | inr (item, found) ↦
        rw (found, get)
          (subst
            (λ o.
              (find_item lru hash j
                  (get_valid lru hash k c e now item (promote_item lru hash k s)).1
                ≡ o)
              ⊎ (find_item lru hash j
                    (get_valid lru hash k c e now item (promote_item lru hash k s)).1
                  ≡ none))
            (find_item-promote_item lru hash k j s)
            (find_item-get_valid k c e now item (promote_item lru hash k s) j))
  ]

  pub find_item-invalidate :
      (k j : Bytes) (s : ShardedLru L)
      → find_item lru hash j (invalidate lru hash k s)
        ≡ (if bytes_eq k j then none else find_item lru hash j s)
  unfolding invalidate
  find_item-invalidate k j s = elim (Option-cases (find_item lru hash k s)) [
    | inl absent ↦ rw (absent, invalidate) (find_item-pop_item lru hash k j s)
    | inr (item, found) ↦
        rw (found, invalidate)
          (find_item-count (increase_invalidate (length item.value_list)) j (pop_item lru hash k s)
            ∙ find_item-pop_item lru hash k j s)
  ]

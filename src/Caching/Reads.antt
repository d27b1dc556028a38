-- ===== src/Caching/Reads.antt =====
-- What a read of the sharded cache finds is what was last stored.
use redis_rs.Base.{
  ℕ, ◌≤◌, ◌<◌, ◌≡◌, refl, sym, ap, ◌∙◌, subst, ◌⊎◌, inl, inr, false, Option, none, some, List, [],
  ◌∷◌, Bytes, bytes_eq, bytes_eq_sound, bytes_eq_refl, ◌==◌, if◌then◌else◌, Bool-cases,
  Option-cases, arith,
}
use redis_rs.Value.Defs.{Value, Outcome, ok}
use redis_rs.Caching.Lru.{LruCache, CacheItem, CacheCmdEntry}
use redis_rs.Caching.Shards.{
  ShardedLru, new, shard_sizes, get_shard, find_item, find_entry, set_entry, is_invalid,
  promote_item, get, fresh_item, insert,
}
use redis_rs.Caching.Changes.{
  stored, find_item-insert_self, find_item-insert_other, find_item-get, find_item-invalidate,
  get_valid-value,
}
use redis_rs.Caching.History.{
  Event, inserted, invalidated, read, last_value, last_deadline, step, after,
}

find_entry-set_entry :
    (c d : Bytes) (v : Value) (l : List CacheCmdEntry)
    → find_entry d (set_entry c v l) ≡ (if bytes_eq c d then some v else find_entry d l)
unfolding find_entry set_entry
find_entry-set_entry c d v [] = refl
find_entry-set_entry c d v (e ∷ l) = elim (Bool-cases (bytes_eq e.cmd c)) [
  | inl same ↦ rw (same, ← bytes_eq_sound e.cmd c same) (ground arith)
  | inr other ↦
      rw (other, find_entry-set_entry c d v l)
        (ground
          (arith, bytes_eq_sound e.cmd d, bytes_eq_sound c d, bytes_eq_refl d, bytes_eq_refl e.cmd))
]

module _ {L : Type 0} (lru : LruCache L) (hash : Bytes → ℕ) where
  -- An item holds what the history stored last.
  record Describes (h : List Event) (key : Bytes) (item : CacheItem) : Type 0 where
    values :
        (c : Bytes) (v : Value)
        → find_entry c item.value_list ≡ some v
        → last_value key c item.epoch h ≡ some v
    deadline : last_deadline key h ≡ some item.expire_time

  abbrev Tracks : List Event → ShardedLru L → Type 0
  Tracks h s =
      (key : Bytes) (item : CacheItem) → find_item lru hash key s ≡ some item → Describes h key item

  abbrev find_in : Bytes → Outcome (ShardedLru L) → Option CacheItem
  find_in key (ok s) = find_item lru hash key s
  find_in key _ = none

  find_in-new : (total : ℕ) (key : Bytes) → find_in key (new lru hash total) ≡ none
  unfolding new find_item get_shard
  find_in-new total key = elim (Bool-cases ((shard_sizes total).1 == 0)) [
    | inl empty ↦ rw (empty, new) refl
    | inr sized ↦ rw (sized, new) (lru.find-new (shard_sizes total).1 key)
  ]

  Tracks-new : (total : ℕ) (s : ShardedLru L) → new lru hash total ≡ ok s → Tracks [] s
  Tracks-new total s e key item found = cc (ap (find_in key) e, find_in-new total key)

  -- What the items of other keys become: kept or lost.
  Describes-kept :
      (h : List Event) (s s' : ShardedLru L) (key : Bytes)
      → (find_item lru hash key s' ≡ find_item lru hash key s) ⊎ (find_item lru hash key s' ≡ none)
      → Tracks h s
      → (item : CacheItem) → find_item lru hash key s' ≡ some item
      → Describes h key item
  Describes-kept h s s' key (inl kept) t item found = t key item (sym kept ∙ found)
  Describes-kept h s s' key (inr lost) t item found = cc

  Describes-fresh :
      (k c : Bytes) (v : Value) (expire e : ℕ) (h : List Event)
      → Describes (inserted k c v expire e ∷ h) k (fresh_item c v expire e)
  unfolding last_value last_deadline find_entry
  Describes-fresh k c v expire e h = record {
    values = λ d w found. ground (arith, bytes_eq_refl k);
    deadline = rw (bytes_eq_refl k) refl;
  }

  Describes-stored :
      (k c : Bytes) (v : Value) (expire e : ℕ) (h : List Event) (o : Option CacheItem)
      → ((item : CacheItem) → o ≡ some item → Describes h k item)
      → Describes (inserted k c v expire e ∷ h) k (stored lru hash c v expire e o)
  unfolding stored last_value last_deadline
  Describes-stored k c v expire e h none t = Describes-fresh k c v expire e h
  Describes-stored k c v expire e h (some item) t = elim (Bool-cases (item.epoch == e)) [
    | inl same ↦ rw same (record {
      values = λ d w found. ground (
        arith,
        bytes_eq_refl k,
        find_entry-set_entry c d v item.value_list,
        (t item refl).values d w,
      );
      deadline = rw (bytes_eq_refl k) refl;
    })
    | inr other ↦ rw other (Describes-fresh k c v expire e h)
  ]

  -- An event at another key leaves what the history says of a key.
  Describes-other :
      (k c : Bytes) (v : Value) (expire e : ℕ) (h : List Event) (key : Bytes) (item : CacheItem)
      → bytes_eq k key ≡ false
      → Describes h key item
      → Describes (inserted k c v expire e ∷ h) key item
  unfolding last_value last_deadline
  Describes-other k c v expire e h key item ne d = record {
    values = λ b w found. rw ne (d.values b w found);
    deadline = rw ne d.deadline;
  }

  Describes-insert :
      (k c : Bytes) (v : Value) (expire e : ℕ) (s : ShardedLru L) (h : List Event)
      → Tracks h s
      → (item : CacheItem) → find_item lru hash k (insert lru hash k c v expire e s) ≡ some item
      → Describes (inserted k c v expire e ∷ h) k item
  Describes-insert k c v expire e s h t item found =
      let same : stored lru hash c v expire e (find_item lru hash k s) ≡ item =
        cc (found, find_item-insert_self lru hash k c v expire e s) in
      subst (Describes (inserted k c v expire e ∷ h) k) same
        (Describes-stored k c v expire e h (find_item lru hash k s) (t k))

  Tracks-step :
      (e : Event) (h : List Event) (s : ShardedLru L)
      → Tracks h s
      → Tracks (e ∷ h) (step lru hash e s)
  unfolding step last_value last_deadline
  Tracks-step (inserted k c v expire e) h s t key item found = elim (Bool-cases (bytes_eq k key)) [
    | inl same ↦
        subst
          (λ j.
            (i : CacheItem)
            → find_item lru hash j (insert lru hash k c v expire e s) ≡ some i
            → Describes (inserted k c v expire e ∷ h) j i)
          (bytes_eq_sound k key same) (λ i f. Describes-insert k c v expire e s h t i f) item found
    | inr other ↦ Describes-other k c v expire e h key item other (
        Describes-kept h s (insert lru hash k c v expire e s) key
          (find_item-insert_other lru hash k c v expire e s key other) t item found)
  ]
  Tracks-step (invalidated k) h s t key item found = elim (Bool-cases (bytes_eq k key)) [
    | inl same ↦ cc (rw (find_item-invalidate, same) at found)
    | inr other ↦
        let d : Describes h key item = t key item (rw (find_item-invalidate, other) at found) in
        record { values = λ b w f. rw other (d.values b w f); deadline = rw other d.deadline }
  ]
  Tracks-step (read k c e now) h s t key item found =
      let d : Describes h key item =
        Describes-kept h s (get lru hash k c e now s).1 key (find_item-get lru hash k c e now s key)
          t item found in
      record { values = d.values; deadline = d.deadline }

  after-Tracks : (s : ShardedLru L) (h : List Event) → Tracks [] s → Tracks h (after lru hash s h)
  unfolding after
  after-Tracks s [] t = t
  after-Tracks s (e ∷ h) t = Tracks-step e h (after lru hash s h) (after-Tracks s h t)

  -- Whatever was stored, invalidated and read in a new cache, in whatever order: a read that finds a
  -- value finds the one last stored for its key and command in its epoch, since which the key was not
  -- invalidated, and not after the time until which the key was last stored.
  pub get-last_value :
      (total : ℕ) (s : ShardedLru L) (h : List Event) (key cmd : Bytes) (epoch now : ℕ) (v : Value)
      → new lru hash total ≡ ok s
      → (get lru hash key cmd epoch now (after lru hash s h)).0 ≡ some v
      → (last_value key cmd epoch h ≡ some v)
        × ((deadline : ℕ) × (last_deadline key h ≡ some deadline) × (now ≤ deadline))
  unfolding get is_invalid
  get-last_value total s h key cmd epoch now v made hit =
      elim (Option-cases (find_item lru hash key (after lru hash s h))) [
        | inl absent ↦ cc (rw (absent, get) at hit)
        | inr (item, found) ↦
            let d : Describes h key item =
              after-Tracks s h (Tracks-new total s made) key item found in
            let e : (if is_invalid item epoch now then none else find_entry cmd item.value_list)
                ≡ some v =
              sym (
                get_valid-value lru hash key cmd epoch now item
                  (promote_item lru hash key (after lru hash s h)))
              ∙ (rw (found, get) at hit) in
            let u : (item.epoch ≡ epoch)
                × (now ≤ item.expire_time)
                × (find_entry cmd item.value_list ≡ some v) =
              ground arith in
            (
              subst (λ n. last_value key cmd n h ≡ some v) u.0 (d.values cmd v u.2),
              (item.expire_time, d.deadline, u.1),
            )
      ]

  stored-hit :
      (cmd : Bytes) (value : Value) (expire epoch now : ℕ)
      → now ≤ expire
      → (o : Option CacheItem)
      → (if is_invalid (stored lru hash cmd value expire epoch o) epoch now
          then none
          else find_entry cmd (stored lru hash cmd value expire epoch o).value_list)
        ≡ some value
  unfolding is_invalid stored find_entry
  stored-hit cmd value expire epoch now h none = ground (arith, bytes_eq_refl cmd)
  stored-hit cmd value expire epoch now h (some item) =
      ground (arith, bytes_eq_refl cmd, find_entry-set_entry cmd cmd value item.value_list)

  stored-miss :
      (cmd : Bytes) (value : Value) (expire epoch now : ℕ)
      → expire < now
      → (o : Option CacheItem)
      → (if is_invalid (stored lru hash cmd value expire epoch o) epoch now
          then none
          else find_entry cmd (stored lru hash cmd value expire epoch o).value_list)
        ≡ none
  unfolding is_invalid stored
  stored-miss cmd value expire epoch now h none = ground arith
  stored-miss cmd value expire epoch now h (some item) = ground arith

  -- A read in the epoch of an insertion, not later than the time given there, finds its value.
  pub get-insert_cached :
      (s : ShardedLru L) (key cmd : Bytes) (value : Value) (expire epoch now : ℕ)
      → now ≤ expire
      → (get lru hash key cmd epoch now (insert lru hash key cmd value expire epoch s)).0
        ≡ some value
  unfolding get
  get-insert_cached s key cmd value expire epoch now h =
      let s' = insert lru hash key cmd value expire epoch s in
      let item = stored lru hash cmd value expire epoch (find_item lru hash key s) in
      rw (find_item-insert_self, get)
        (get_valid-value lru hash key cmd epoch now item (promote_item lru hash key s')
          ∙ stored-hit cmd value expire epoch now h (find_item lru hash key s))

  -- A read later than that finds nothing.
  pub get-insert_expired :
      (s : ShardedLru L) (key cmd : Bytes) (value : Value) (expire epoch now : ℕ)
      → expire < now
      → (get lru hash key cmd epoch now (insert lru hash key cmd value expire epoch s)).0 ≡ none
  unfolding get
  get-insert_expired s key cmd value expire epoch now h =
      let s' = insert lru hash key cmd value expire epoch s in
      let item = stored lru hash cmd value expire epoch (find_item lru hash key s) in
      rw (find_item-insert_self, get)
        (get_valid-value lru hash key cmd epoch now item (promote_item lru hash key s')
          ∙ stored-miss cmd value expire epoch now h (find_item lru hash key s))

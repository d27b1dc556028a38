-- ===== src/Caching/Reuse.antt =====
-- Commands on one key that are answered from the cache, and the messages by which the server takes
-- their keys from it.
use redis_rs.Base.{
  ℕ, zero, suc, ◌+◌, ◌≡◌, refl, ap, sym, subst, ◌∙◌, Bool, true, false, ◌&&◌, leb, Bool-cases, inl,
  inr, arith, Option, none, some, Bytes, bytes_eq, ltb, if◌then◌else◌,
}
use redis_rs.Value.Defs.{
  Value, bulk_string, array, invalidate, Values, item, Outcome, ok, err, panicked,
}
use redis_rs.Value.Integer.{ℤ, pos, negsuc}
use redis_rs.Value.Convert.{Conversions, from_i64, from_bytes, from_vec}
use redis_rs.Cmd.{Cmd, arg_idx}
use redis_rs.Cmd.Pack.{cmd_len}
use redis_rs.Cluster.Properties.{is_cachable_cmd}
use redis_rs.Caching.Lru.{LruCache}
use redis_rs.Caching.Shards.{ShardedLru, find_item}
use redis_rs.Caching.Changes.{find_item-invalidate}
use redis_rs.Caching.Reads.{get-insert_cached, get-insert_expired}
use redis_rs.Caching.Manager.{
  CacheMode, all, CacheManager, expire_time_of, is_multi_key, calculate_expiration_time,
  handle_push_value, first_key, invalidate_key,
}
use redis_rs.Caching.Manager
use redis_rs.Caching.Commands.{single, PrepCacheItem, cached, not_cached}
use redis_rs.Caching.Prepare.{
  single_key_item, single_key_at, handle_single_key_command, cached_by_name, get_cached_cmd_inner,
  cached_in_mode, get_cached_cmd,
}

-- Whether a time is not later than the time to live that the server gives, if it is a positive number of
-- milliseconds, from when the reply was kept, and not later than the client's own limit.
abbrev pub in_time : Outcome ℤ → ℕ → ℕ → ℕ → Bool
in_time (ok (pos (suc ttl))) client_side now later =
    leb later (now + suc ttl) && leb later client_side
in_time (ok (pos zero)) client_side now later = leb later client_side
in_time (ok (negsuc n)) client_side now later = leb later client_side
in_time (err e) client_side now later = leb later client_side
in_time panicked client_side now later = leb later client_side

in_time-expire_time_of :
    (ttl : Outcome ℤ) (client_side now later : ℕ)
    → in_time ttl client_side now later ≡ leb later (expire_time_of ttl client_side now)
unfolding expire_time_of
in_time-expire_time_of (ok (pos (suc ttl))) client_side now later = ground arith
in_time-expire_time_of (ok (pos zero)) client_side now later = refl
in_time-expire_time_of (ok (negsuc n)) client_side now later = refl
in_time-expire_time_of (err e) client_side now later = refl
in_time-expire_time_of panicked client_side now later = refl

module _ {L : Type 0} (lru : LruCache L) (hash : Bytes → ℕ) (conversions : Conversions)
    (m : CacheManager) where
  -- The command as it is sent when it is not answered from the cache.
  abbrev pub asked : Cmd → Bytes → ℕ → PrepCacheItem
  asked c key now = not_cached (
      single (record {
        redis_key = key;
        cmd_key = c.buffer;
        cmd = c;
        client_side_expire = calculate_expiration_time m c now;
      }))

  single_key_item-if :
      (now : ℕ) (c : Cmd) (key : Bytes) (v : Value) (b : Bool) (r : Option Value × ShardedLru L)
      → r.0 ≡ (if b then some v else none)
      → single_key_item lru hash conversions m now c (calculate_expiration_time m c now) key r
        ≡ (if b then cached v else asked c key now, r.1)
  unfolding single_key_item
  single_key_item-if now c key v true (some w, s) e = cc
  single_key_item-if now c key v true (none, s) e = cc
  single_key_item-if now c key v false (some w, s) e = cc
  single_key_item-if now c key v false (none, s) e = refl

  -- A cacheable command on one key is answered by what the cache has for it.
  cached_in_mode-single_key_item :
      (now : ℕ) (c : Cmd) (name key : Bytes) (s : ShardedLru L)
      → ltb (cmd_len c) 2 ≡ false
      → arg_idx c 0 ≡ ok (some name)
      → arg_idx c 1 ≡ ok (some key)
      → is_multi_key name ≡ none
      → is_cachable_cmd name ≡ true
      → cached_in_mode lru hash conversions m now all c s
        ≡ ok (
            single_key_item lru hash conversions m now c
              (calculate_expiration_time m c now)
              key
              (Manager.get lru hash conversions m key c.buffer now s))
  unfolding cached_in_mode get_cached_cmd_inner cached_by_name handle_single_key_command
      single_key_at
  cached_in_mode-single_key_item now c name key s long first second one cacheable =
      rw (long, first) (rw (one, cached_by_name, cacheable) (rw second refl))

  -- Where every command may be cached, for a reply that was kept for a command on a key, after which
  -- nothing else was done to the cache: a cacheable command on that one key with the same data is
  -- answered with that reply as long as neither the time to live that the server gave nor the client's
  -- limit is over, and is sent to the server after that.
  pub get_cached_cmd-insert :
      (b c : Cmd) (name key : Bytes) (reply ttl : Value) (client_side now later : ℕ)
      (s : ShardedLru L)
      → m.cache_config.mode ≡ all
      → b.buffer ≡ c.buffer
      → ltb (cmd_len c) 2 ≡ false
      → arg_idx c 0 ≡ ok (some name)
      → arg_idx c 1 ≡ ok (some key)
      → is_multi_key name ≡ none
      → is_cachable_cmd name ≡ true
      → (s' : ShardedLru L) × (get_cached_cmd lru hash conversions m later c
            (Manager.insert lru hash conversions m key b.buffer reply client_side ttl now s)
          ≡ ok (
            if in_time (from_i64 conversions ttl) client_side now later
                then cached reply
                else asked c key later,
            s',
          ))
  unfolding get_cached_cmd
  get_cached_cmd-insert b c name key reply ttl client_side now later s mode same long first second
        one cacheable =
      let s₁ = Manager.insert lru hash conversions m key b.buffer reply client_side ttl now s in
      let found = Manager.get lru hash conversions m key c.buffer later s₁ in
      let until = expire_time_of (from_i64 conversions ttl) client_side now in
      let kept : (Manager.get lru hash conversions m key b.buffer later s₁).0
          ≡ (if leb later until then some reply else none) =
        unfold Manager.get Manager.insert in
        elim (Bool-cases (leb later until)) [
          | inl early ↦
              rw early
                (get-insert_cached lru hash s key b.buffer reply until m.epoch later (ground arith))
          | inr late ↦
              rw late (
                get-insert_expired lru hash s key b.buffer reply until m.epoch later (ground arith))
        ] in
      let read : found.0 ≡ (
          if in_time (from_i64 conversions ttl) client_side now later then some reply else none) =
        subst
          (λ d.
            (Manager.get lru hash conversions m key d later s₁).0
            ≡ (if leb later until then some reply else none))
          same kept
        ∙ ap (λ t. if t then some reply else none)
            (sym (in_time-expire_time_of (from_i64 conversions ttl) client_side now later)) in
      (
        found.1,
        subst
            (λ mode'.
              cached_in_mode lru hash conversions m later mode' c s₁
              ≡ ok (
                if in_time (from_i64 conversions ttl) client_side now later
                    then cached reply
                    else asked c key later,
                found.1,
              ))
            (sym mode)
            (cached_in_mode-single_key_item later c name key s₁ long first second one cacheable
              ∙ ap ok (single_key_item-if later c key reply _ found read)),
      )

module _ {L : Type 0} (lru : LruCache L) (hash : Bytes → ℕ) (conversions : Conversions) where
  -- An invalidation message removes the first of its keys from the cache, and leaves all others.
  pub handle_push_value-first_key :
      (key : Bytes) (keys rest : Values) (j : Bytes) (s : ShardedLru L)
      → find_item lru hash j (
          handle_push_value lru hash conversions invalidate
            (item (array (item (bulk_string key) keys)) rest)
            s)
        ≡ (if bytes_eq key j then none else find_item lru hash j s)
  unfolding handle_push_value first_key invalidate_key from_bytes from_vec
  handle_push_value-first_key key keys rest j s = find_item-invalidate lru hash key j s

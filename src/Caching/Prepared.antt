-- ===== src/Caching/Prepared.antt =====
-- What is kept of a command that was prepared.
use redis_rs.Base.{
  ℕ, ◌≡◌, refl, inl, inr, Option, none, some, List, [], ◌∷◌, Bytes, codes, ltb, Bool-cases,
  Option-cases,
}
use redis_rs.Value.Defs.{Value, Outcome, ok, err, panicked, ◌>>=◌}
use redis_rs.Value.Convert.{Conversions}
use redis_rs.Cmd.{Cmd, arg_idx}
use redis_rs.Cmd.Pack.{cmd_len}
use redis_rs.Cluster.Properties.{is_cachable_cmd}
use redis_rs.Caching.Lru.{LruCache}
use redis_rs.Caching.Shards.{ShardedLru}
use redis_rs.Caching.Manager.{
  CacheMode, all, opt_in, CacheManager, is_multi_key, calculate_expiration_time, keys_and_path,
  starts_with, extract_simple_arguments,
}
use redis_rs.Caching.Manager
use redis_rs.Caching.Commands.{
  MultipleCachedCommandPart, single, multiple, PrepCacheItem, cached, not_cached, not_cacheable,
  CachingResult, prepared, ignored,
}
use redis_rs.Caching.Prepare.{
  single_key_item, single_key_at, multi_key_item, cached_by_name, cached_in_mode,
  get_cached_cmd_inner, handle_single_key_command, handle_multi_key_command, has_opt_in,
  process_keys, get_cached_cmd,
}
use redis_rs.Caching.Merge.{looked_up, AtMissing, held, process_keys-held}

-- What an item that was prepared for a command is about: the command itself, or the keys that were not
-- found, at their places.
abbrev pub IsPrepared : Cmd → CachingResult → Type 0
IsPrepared c (prepared (cached v)) = Unit
IsPrepared c (prepared (not_cached (single sc))) = sc.cmd ≡ c
IsPrepared c (prepared (not_cached (multiple mc))) =
    (os : List (Option Value)) × (mc.response ≡ held os) × AtMissing 0 os mc.commands
IsPrepared c (prepared not_cacheable) = Unit
IsPrepared c ignored = Unit

abbrev pub AllPrepared : List Cmd → List CachingResult → Type 0
AllPrepared [] [] = Unit
AllPrepared (c ∷ cs) (r ∷ rs) = IsPrepared c r × AllPrepared cs rs
AllPrepared _ _ = ⊥

module _ {L : Type 0} (lru : LruCache L) (hash : Bytes → ℕ) (conversions : Conversions)
    (m : CacheManager) (now : ℕ) where
  -- What a preparation of a command gives, if it does not panic.
  abbrev pub Prepares : Cmd → Outcome (PrepCacheItem × ShardedLru L) → Type 0
  Prepares c (ok found) = IsPrepared c (prepared found.0)
  Prepares c _ = Unit

  bind-Prepares :
      {A : Type 0} (c : Cmd) (o : Outcome A) (f : A → Outcome (PrepCacheItem × ShardedLru L))
      → ((a : A) → Prepares c (f a))
      → Prepares c (o >>= f)
  bind-Prepares c (ok a) f h = h a
  bind-Prepares c (err e) f h = tt
  bind-Prepares c panicked f h = tt

  single_key_item-Prepares :
      (c : Cmd) (expire : ℕ) (key : Bytes) (r : Option Value × ShardedLru L)
      → IsPrepared c (prepared (single_key_item lru hash conversions m now c expire key r).0)
  unfolding single_key_item
  single_key_item-Prepares c expire key (some v, s) = tt
  single_key_item-Prepares c expire key (none, s) = refl

  single_key_at-Prepares :
      (c : Cmd) (expire : ℕ) (s : ShardedLru L) (key : Option Bytes)
      → IsPrepared c (prepared (single_key_at lru hash conversions m now c expire key s).0)
  unfolding single_key_at
  single_key_at-Prepares c expire s none = tt
  single_key_at-Prepares c expire s (some key) =
      single_key_item-Prepares c expire key (Manager.get lru hash conversions m key c.buffer now s)

  multi_key_item-Prepares :
      (c : Cmd) (name : Bytes) (expire : ℕ) (path : Option Bytes) (os : List (Option Value))
      (r : List (ℕ × MultipleCachedCommandPart) × List Value × ShardedLru L)
      → r.1 ≡ held os
      → AtMissing 0 os r.0
      → IsPrepared c (prepared (multi_key_item lru hash conversions m now name expire path r).0)
  unfolding multi_key_item
  multi_key_item-Prepares c name expire path os ([], response, s) h at = tt
  multi_key_item-Prepares c name expire path os (p ∷ ps, response, s) h at = (os, h, at)

  handle_multi_key_command-Prepares :
      (c : Cmd) (name single_name : Bytes) (expire : ℕ) (s : ShardedLru L)
      → IsPrepared c (
          prepared
            (handle_multi_key_command lru hash conversions m now c name single_name expire s).0)
  unfolding handle_multi_key_command
  handle_multi_key_command-Prepares c name single_name expire s =
      let split = keys_and_path (starts_with (codes "JSON") name) (extract_simple_arguments c) in
      let h = process_keys-held lru hash conversions m now single_name split.1 0 split.0 s in
      multi_key_item-Prepares c name expire split.1
        (looked_up lru hash conversions m now single_name split.1 split.0 s)
        (process_keys lru hash conversions m now single_name split.1 0 split.0 s) h.0 h.1

  handle_single_key_command-Prepares :
      (c : Cmd) (expire : ℕ) (s : ShardedLru L)
      → Prepares c (handle_single_key_command lru hash conversions m now c expire s)
  unfolding handle_single_key_command
  handle_single_key_command-Prepares c expire s =
      bind-Prepares c (arg_idx c 1)
        (λ key. ok (single_key_at lru hash conversions m now c expire key s))
        (single_key_at-Prepares c expire s)

  cached_by_name-Prepares :
      (c : Cmd) (name : Bytes) (expire : ℕ) (s : ShardedLru L)
      → Prepares c (cached_by_name lru hash conversions m now c name expire s)
  unfolding cached_by_name
  cached_by_name-Prepares c name expire s = elim (Option-cases (is_multi_key name)) [
    | inr ((name', single_name), several) ↦
        rw (several, cached_by_name)
          (handle_multi_key_command-Prepares c name' single_name expire s)
    | inl one ↦
        rw (one, cached_by_name)
          (elim (Bool-cases (is_cachable_cmd name)) [
            | inl cacheable ↦ rw cacheable (handle_single_key_command-Prepares c expire s)
            | inr other ↦ rw other tt
          ])
  ]

  by_first_argument :
      (c : Cmd) (s : ShardedLru L) (name : Option Bytes)
      → Prepares c (elim name [
        | none ↦ ok (not_cacheable, s)
        | some n ↦
            cached_by_name lru hash conversions m now c n (calculate_expiration_time m c now) s
      ])
  by_first_argument c s none = tt
  by_first_argument c s (some n) = cached_by_name-Prepares c n (calculate_expiration_time m c now) s

  get_cached_cmd_inner-Prepares :
      (c : Cmd) (s : ShardedLru L)
      → Prepares c (get_cached_cmd_inner lru hash conversions m now c s)
  unfolding get_cached_cmd_inner
  get_cached_cmd_inner-Prepares c s = elim (Bool-cases (ltb (cmd_len c) 2)) [
    | inl short ↦ rw (short, get_cached_cmd_inner) tt
    | inr long ↦
        rw (long, get_cached_cmd_inner) (bind-Prepares c (arg_idx c 0) _ (by_first_argument c s))
  ]

  pub cached_in_mode-Prepares :
      (mode : CacheMode) (c : Cmd) (s : ShardedLru L)
      → Prepares c (cached_in_mode lru hash conversions m now mode c s)
  unfolding cached_in_mode
  cached_in_mode-Prepares all c s = get_cached_cmd_inner-Prepares c s
  cached_in_mode-Prepares opt_in c s = elim (Bool-cases (has_opt_in c)) [
    | inl asked ↦ rw (asked, cached_in_mode) (get_cached_cmd_inner-Prepares c s)
    | inr other ↦ rw (other, cached_in_mode) tt
  ]

  pub get_cached_cmd-Prepares :
      (c : Cmd) (s : ShardedLru L) → Prepares c (get_cached_cmd lru hash conversions m now c s)
  unfolding get_cached_cmd
  get_cached_cmd-Prepares c s = cached_in_mode-Prepares m.cache_config.mode c s

-- ===== src/Caching/Merge.antt =====
-- A command on several keys, some of which are cached: its reply is put together in the order of the
-- keys.
use redis_rs.Base.{
  ℕ, zero, suc, ◌+◌, ◌≡◌, refl, sym, ap, subst, inl, inr, Option, none, some, List, [], ◌∷◌, ◌++◌,
  Bytes, length, set, ltb, lt→ltb, length-append, append_assoc, Option-cases, codes, true, arith,
}
use redis_rs.Value.Defs.{Value, nil, array, of_list, to_list-of_list, ok}
use redis_rs.Value.Convert.{Conversions}
use redis_rs.Caching.Lru.{LruCache}
use redis_rs.Caching.Shards.{ShardedLru}
use redis_rs.Caching.Manager.{
  CacheMode, all, opt_in, CacheManager, prepare_key_buffer, extract_simple_arguments, keys_and_path,
  starts_with,
}
use redis_rs.Cmd.{Cmd}
use redis_rs.Caching.Manager
use redis_rs.Caching.Commands.{
  MultipleCachedCommandPart, prepared, fill, insert_reply, resolve_multiple, resolve_command,
  skip_opt_in, resolve_item,
}
use redis_rs.Caching.Prepare.{process_keys, multi_key_item, handle_multi_key_command}

-- What was found in the cache, and the server's values where nothing was found, in order.
unfoldable pub merged : List (Option Value) → List Value → List Value
merged [] vs = []
merged (some v ∷ os) vs = v ∷ merged os vs
merged (none ∷ os) (v ∷ vs) = v ∷ merged os vs
merged (none ∷ os) [] = nil ∷ merged os []

-- How many keys were not found.
unfoldable pub missing : List (Option Value) → ℕ
missing [] = 0
missing (some v ∷ os) = missing os
missing (none ∷ os) = suc (missing os)

-- The response before the server has replied.
unfoldable pub held : List (Option Value) → List Value
held [] = []
held (some v ∷ os) = v ∷ held os
held (none ∷ os) = nil ∷ held os

-- The parts stand at the places where nothing was found, from the index `i`.
pub data AtMissing : ℕ → List (Option Value) → List (ℕ × MultipleCachedCommandPart) → Type 0 where
  at_end : (i : ℕ) → AtMissing i [] []
  at_found :
      (i : ℕ) (v : Value) (os : List (Option Value)) (ps : List (ℕ × MultipleCachedCommandPart))
      → AtMissing (i + 1) os ps
      → AtMissing i (some v ∷ os) ps
  at_missing :
      (i : ℕ) (p : MultipleCachedCommandPart) (os : List (Option Value))
      (ps : List (ℕ × MultipleCachedCommandPart))
      → AtMissing (i + 1) os ps
      → AtMissing i (none ∷ os) ((i, p) ∷ ps)

set-append :
    (pre : List Value) (x v : Value) (xs : List Value)
    → set (pre ++ (x ∷ xs)) (length pre) v ≡ pre ++ (v ∷ xs)
set-append [] x v xs = refl
set-append (p ∷ pre) x v xs = ap (λ l. p ∷ l) (set-append pre x v xs)

module _ {L : Type 0} (lru : LruCache L) (hash : Bytes → ℕ) (conversions : Conversions)
    (m : CacheManager) (now : ℕ) where
  -- What the cache has for each key, in turn.
  unfoldable pub looked_up : Bytes → Option Bytes → List Bytes → ShardedLru L → List (Option Value)
  looked_up name path [] s = []
  looked_up name path (key ∷ keys) s =
      (Manager.get lru hash conversions m key (prepare_key_buffer name key path) now s).0
      ∷ looked_up name path keys
          (Manager.get lru hash conversions m key (prepare_key_buffer name key path) now s).1

  pub process_keys-held :
      (name : Bytes) (path : Option Bytes) (i : ℕ) (keys : List Bytes) (s : ShardedLru L)
      → ((process_keys lru hash conversions m now name path i keys s).1
          ≡ held (looked_up name path keys s))
        × AtMissing i
            (looked_up name path keys s)
            (process_keys lru hash conversions m now name path i keys s).0
  unfolding process_keys looked_up held
  process_keys-held name path i [] s = (refl, at_end i)
  process_keys-held name path i (key ∷ keys) s =
      let cmd = prepare_key_buffer name key path in
      let ih =
        process_keys-held name path (i + 1) keys
          (Manager.get lru hash conversions m key cmd now s).1 in
      elim (Option-cases (Manager.get lru hash conversions m key cmd now s).0) [
        | inl absent ↦ rw (absent, process_keys) (ap (λ l. nil ∷ l) ih.0, at_missing i _ _ _ ih.1)
        | inr (v, found) ↦ rw (found, process_keys) (ap (λ l. v ∷ l) ih.0, at_found i v _ _ ih.1)
      ]

  pub fill-merged :
      (expire i : ℕ) (os : List (Option Value)) (vs ttls rest : List Value)
      (parts : List (ℕ × MultipleCachedCommandPart)) (pre : List Value) (s : ShardedLru L)
      → AtMissing i os parts
      → length pre ≡ i
      → length vs ≡ missing os
      → length ttls ≡ missing os
      → (s' : ShardedLru L) × (fill lru hash conversions m now expire vs
            (ttls ++ rest)
            parts
            (pre ++ held os)
            s
          ≡ ok (pre ++ merged os vs, rest, s'))
  unfolding fill merged held missing
  fill-merged expire i os [] [] rest parts pre s (at_end j) l lv lt = (s, refl)
  fill-merged expire i os (v ∷ vs) ttls rest parts pre s (at_end j) l lv lt = absurd (omega arith)
  fill-merged expire i os [] (t ∷ ttls) rest parts pre s (at_end j) l lv lt = absurd (omega arith)
  fill-merged expire i os vs ttls rest parts pre s (at_found j v os' ps at) l lv lt =
      let found =
        fill-merged expire (j + 1) os' vs ttls rest ps (pre ++ v ∷ []) s at
          (omega (arith, length-append pre (v ∷ []))) lv lt in
      (found.0, rw (append_assoc, append_assoc) at found.1)
  fill-merged expire i os [] ttls rest parts pre s (at_missing j p os' ps at) l lv lt =
      absurd (omega arith)
  fill-merged expire i os (v ∷ vs) [] rest parts pre s (at_missing j p os' ps at) l lv lt =
      absurd (omega arith)
  fill-merged expire i os (v ∷ vs) (ttl ∷ ttls) rest parts pre s (at_missing j p os' ps at) l lv
        lt =
      let filled =
        fill-merged expire (j + 1) os' vs ttls rest ps (pre ++ v ∷ [])
          (insert_reply lru hash conversions m now p.redis_key p.cmd_key v expire ttl s) at
          (omega (arith, length-append pre (v ∷ []))) (omega arith) (omega arith) in
      let within : ltb j (length (pre ++ (nil ∷ held os'))) ≡ true =
        lt→ltb j (length (pre ++ (nil ∷ held os')))
          (omega (arith, l, length-append pre (nil ∷ held os'))) in
      let written : set (pre ++ (nil ∷ held os')) j v ≡ pre ++ (v ∷ held os') =
        subst (λ k. set (pre ++ (nil ∷ held os')) k v ≡ pre ++ (v ∷ held os')) l
          (set-append pre nil v (held os')) in
      (filled.0, rw (within, written) (rw (append_assoc, append_assoc) at filled.1))

  cached-missing :
      (i : ℕ) (os : List (Option Value)) (ps : List (ℕ × MultipleCachedCommandPart))
      → AtMissing i os ps
      → ps ≡ []
      → (missing os ≡ 0) × (held os ≡ merged os [])
  unfolding held merged missing
  cached-missing i os ps (at_end j) e = (refl, refl)
  cached-missing i os ps (at_found j v os' ps' at) e =
      let rest = cached-missing (j + 1) os' ps' at e in (rest.0, ap (λ l. v ∷ l) rest.1)
  cached-missing i os ps (at_missing j p os' ps' at) e = cc

  pub length-parts :
      (i : ℕ) (os : List (Option Value)) (ps : List (ℕ × MultipleCachedCommandPart))
      → AtMissing i os ps
      → length ps ≡ missing os
  unfolding missing
  length-parts i os ps (at_end j) = refl
  length-parts i os ps (at_found j v os' ps' at) = length-parts (j + 1) os' ps' at
  length-parts i os ps (at_missing j p os' ps' at) =
      ap (λ n. suc n) (length-parts (j + 1) os' ps' at)

  -- What the server sends back for the keys that were not found, if there are such: the reply to
  -- `CLIENT CACHING YES` in the mode where that is sent, the values, and the times to live.
  abbrev pub sent_back : CacheMode → ℕ → Value → List Value → List Value → List Value
  sent_back mode zero ack vs ttls = []
  sent_back all (suc n) ack vs ttls = array (of_list vs) ∷ ttls
  sent_back opt_in (suc n) ack vs ttls = ack ∷ array (of_list vs) ∷ ttls

  skip_opt_in-sent_back :
      (mode : CacheMode) (n : ℕ) (ack : Value) (vs ttls rest : List Value)
      → skip_opt_in mode (sent_back mode (suc n) ack vs ttls ++ rest)
        ≡ ok (array (of_list vs) ∷ (ttls ++ rest))
  unfolding skip_opt_in
  skip_opt_in-sent_back all n ack vs ttls rest = refl
  skip_opt_in-sent_back opt_in n ack vs ttls rest = refl

  resolve_multi_key_item :
      (name : Bytes) (expire : ℕ) (path : Option Bytes) (os : List (Option Value))
      (r : List (ℕ × MultipleCachedCommandPart) × List Value × ShardedLru L) (ack : Value)
      (vs ttls rest : List Value) (s : ShardedLru L)
      → r.1 ≡ held os
      → AtMissing 0 os r.0
      → length vs ≡ missing os
      → length ttls ≡ missing os
      → (s' : ShardedLru L) × (resolve_item lru hash conversions m now
            (prepared (multi_key_item lru hash conversions m now name expire path r).0)
            (sent_back m.cache_config.mode (missing os) ack vs ttls ++ rest)
            s
          ≡ ok (array (of_list (merged os vs)), rest, s'))
  unfolding multi_key_item resolve_item
  resolve_multi_key_item name expire path os ([], response, s₁) ack [] ttls rest s h at lv lt =
      let e = cached-missing 0 os [] at refl in (s, rw (e.0, h, e.1) refl)
  resolve_multi_key_item name expire path os ([], response, s₁) ack (v ∷ vs) ttls rest s h at lv
        lt =
      let e = cached-missing 0 os [] at refl in absurd (omega (arith, e.0))
  resolve_multi_key_item name expire path os (p ∷ ps, response, s₁) ack vs ttls rest s h at lv lt =
      let e : missing os ≡ suc (length ps) = sym (length-parts 0 os (p ∷ ps) at) in
      let filled = fill-merged expire 0 os vs ttls rest (p ∷ ps) [] s at refl lv lt in
      (
        filled.0,
        rw (e, skip_opt_in-sent_back)
            (rw (resolve_command, resolve_multiple, h, to_list-of_list) (rw filled.1 refl)),
      )

  -- What the cache has for the keys of a command, in turn.
  abbrev pub found_for : Cmd → Bytes → Bytes → ShardedLru L → List (Option Value)
  found_for c name single_name s =
      let split = keys_and_path (starts_with (codes "JSON") name) (extract_simple_arguments c) in
      looked_up single_name split.1 split.0 s

  -- A command on several keys, in either mode: if the server has sent a value, and then a time to live,
  -- for each key that was not found, the answer has at each key, in order, what was found in the cache
  -- or else the server's value, and the replies that follow are left. If all were found, nothing is
  -- awaited.
  pub handle_multi_key_command-merged :
      (c : Cmd) (name single_name : Bytes) (expire : ℕ) (s s₂ : ShardedLru L) (ack : Value)
      (vs ttls rest : List Value)
      → length vs ≡ missing (found_for c name single_name s)
      → length ttls ≡ missing (found_for c name single_name s)
      → (s₃ : ShardedLru L) × (resolve_item lru hash conversions m now
            (prepared
              (handle_multi_key_command lru hash conversions m now c name single_name expire s).0)
            (sent_back m.cache_config.mode (missing (found_for c name single_name s)) ack vs ttls
              ++ rest)
            s₂
          ≡ ok (array (of_list (merged (found_for c name single_name s) vs)), rest, s₃))
  unfolding handle_multi_key_command
  handle_multi_key_command-merged c name single_name expire s s₂ ack vs ttls rest lv lt =
      let split = keys_and_path (starts_with (codes "JSON") name) (extract_simple_arguments c) in
      let h = process_keys-held single_name split.1 0 split.0 s in
      resolve_multi_key_item name expire split.1 (found_for c name single_name s)
        (process_keys lru hash conversions m now single_name split.1 0 split.0 s) ack vs ttls rest
        s₂ h.0 h.1 lv lt

-- ===== src/Caching/Answers.antt =====
-- What the commands of a pipeline are answered with, by the cache and by the replies to what was sent.
use redis_rs.Base.{
  ℕ, suc, ◌+◌, arith, ◌≡◌, refl, ap, ◌∙◌, Option, List, [], ◌∷◌, ◌++◌, map, length-map, Bytes,
  length,
}
use redis_rs.Value.Defs.{Value, array, of_list, to_list-of_list, ok}
use redis_rs.Value.Convert.{Conversions}
use redis_rs.Cmd.{Cmd}
use redis_rs.Caching.Lru.{LruCache}
use redis_rs.Caching.Shards.{ShardedLru}
use redis_rs.Caching.Manager.{CacheMode, all, opt_in, CacheManager}
use redis_rs.Caching.Commands.{
  single, multiple, cached, not_cached, not_cacheable, CachingResult, prepared, ignored, part_keys,
  pttl, remaining_command, insert_reply, skip_opt_in, resolve_multiple, resolve_command,
  resolve_item, resolve_items,
}
use redis_rs.Caching.Merge.{held, merged, missing, AtMissing, length-parts, fill-merged}
use redis_rs.Caching.Prepared.{IsPrepared, AllPrepared}
use redis_rs.Caching.Sent.{opt_in_commands, sent_for, all_sent, length-part_keys}

-- The number of the first command after those that ask for the next one to be cached, from `n` on.
abbrev pub after_opt_in : CacheMode → ℕ → ℕ
after_opt_in all n = n
after_opt_in opt_in n = suc n

-- What the server replies to a command depends on its number among those that are sent.
module _ (reply : ℕ → Cmd → Value) where
  -- The replies to commands that are numbered from `n` on.
  unfoldable pub replies_from : ℕ → List Cmd → List Value
  replies_from n [] = []
  replies_from n (c ∷ cs) = reply n c ∷ replies_from (suc n) cs

  -- A command on the keys that were not found is replied to with as many values. What is sent for the
  -- item is numbered from `n` on.
  abbrev pub IsServed : CacheMode → ℕ → CachingResult → Type 0
  IsServed mode n (prepared (not_cached (multiple mc))) =
      (vs : List Value) × (reply (after_opt_in mode n) (remaining_command mc) ≡ array (of_list vs))
      × (length vs ≡ length mc.commands)
  IsServed mode n _ = Unit

  abbrev pub AllServed : CacheMode → ℕ → List Cmd → List CachingResult → Type 0
  AllServed mode n (c ∷ cs) (r ∷ rs) =
      IsServed mode n r × AllServed mode (n + length (sent_for mode c r)) cs rs
  AllServed mode n _ _ = Unit

  -- The answer to a command: the cached value, the server's reply to the command itself, or, for
  -- several keys, what the cache held at the places of those that it had, and at the places of the
  -- others, which are those that were asked for, the server's values, as many as were asked for.
  abbrev pub Answers : CacheMode → ℕ → Cmd → CachingResult → Value → Type 0
  Answers mode n c (prepared (cached v)) w = w ≡ v
  Answers mode n c (prepared (not_cached (single sc))) w = w ≡ reply (suc (after_opt_in mode n)) c
  Answers mode n c (prepared (not_cached (multiple mc))) w =
      (os : List (Option Value)) × (vs : List Value) × (mc.response ≡ held os)
      × AtMissing 0 os mc.commands
      × (reply (after_opt_in mode n) (remaining_command mc) ≡ array (of_list vs))
      × (length vs ≡ missing os)
      × (w ≡ array (of_list (merged os vs)))
  Answers mode n c (prepared not_cacheable) w = w ≡ reply n c
  Answers mode n c ignored w = w ≡ reply n c

  abbrev pub AllAnswers : CacheMode → ℕ → List Cmd → List CachingResult → List Value → Type 0
  AllAnswers mode n [] [] [] = Unit
  AllAnswers mode n (c ∷ cs) (r ∷ rs) (v ∷ vs) =
      Answers mode n c r v × AllAnswers mode (n + length (sent_for mode c r)) cs rs vs
  AllAnswers mode n _ _ _ = ⊥

  replies_from-append :
      (n : ℕ) (xs ys : List Cmd)
      → replies_from n (xs ++ ys) ≡ replies_from n xs ++ replies_from (n + length xs) ys
  unfolding replies_from
  replies_from-append n [] ys = ap (λ k. replies_from k ys) (omega arith)
  replies_from-append n (x ∷ xs) ys =
      ap (λ l. reply n x ∷ l)
        (replies_from-append (suc n) xs ys
          ∙ ap (λ k. replies_from (suc n) xs ++ replies_from k ys) (omega arith))

  length-replies_from : (n : ℕ) (xs : List Cmd) → length (replies_from n xs) ≡ length xs
  unfolding replies_from
  length-replies_from n [] = refl
  length-replies_from n (x ∷ xs) = ap (λ k. suc k) (length-replies_from (suc n) xs)

  skip_opt_in-replies :
      (mode : CacheMode) (n : ℕ) (cs : List Cmd) (more : List Value)
      → skip_opt_in mode (replies_from n (opt_in_commands mode ++ cs) ++ more)
        ≡ ok (replies_from (after_opt_in mode n) cs ++ more)
  unfolding skip_opt_in replies_from
  skip_opt_in-replies all n cs more = refl
  skip_opt_in-replies opt_in n cs more = refl

  module _ {L : Type 0} (lru : LruCache L) (hash : Bytes → ℕ) (conversions : Conversions)
      (m : CacheManager) (now : ℕ) where
    resolve_item-served :
        (n : ℕ) (c : Cmd) (r : CachingResult) (rest : List Value) (s : ShardedLru L)
        → IsPrepared c r
        → IsServed m.cache_config.mode n r
        → (v : Value) × (s' : ShardedLru L) × (resolve_item lru hash conversions m now r
              (replies_from n (sent_for m.cache_config.mode c r) ++ rest)
              s
            ≡ ok (v, rest, s'))
          × Answers m.cache_config.mode n c r v
    unfolding resolve_item sent_for replies_from
    resolve_item-served n c (prepared (cached v)) rest s p h = (v, s, refl, refl)
    resolve_item-served n c (prepared (not_cached (single sc))) rest s p h =
        let k = after_opt_in m.cache_config.mode n in
        (
          reply (suc k) sc.cmd,
          insert_reply lru hash conversions m now sc.redis_key sc.cmd_key (reply (suc k) sc.cmd)
              sc.client_side_expire (reply k (pttl sc.redis_key)) s,
          rw skip_opt_in-replies refl,
          ap (reply (suc k)) p,
        )
    resolve_item-served n c (prepared (not_cached (multiple mc))) rest s (os, response, at)
          (vs, replied, l) =
        let k = after_opt_in m.cache_config.mode n in
        let ttls = replies_from (suc k) (map pttl (part_keys mc.commands)) in
        let lt : length ttls ≡ length mc.commands =
          length-replies_from (suc k) (map pttl (part_keys mc.commands))
          ∙ length-map pttl (part_keys mc.commands)
          ∙ length-part_keys mc.commands in
        let lm = length-parts lru hash conversions m now 0 os mc.commands at in
        let filled =
          fill-merged lru hash conversions m now mc.client_side_expire 0 os vs ttls rest mc.commands
            [] s at refl (l ∙ lm) (lt ∙ lm) in
        (
          array (of_list (merged os vs)),
          filled.0,
          rw skip_opt_in-replies (
              rw (resolve_command, resolve_multiple, replied, to_list-of_list, response)
                (rw filled.1 refl)),
          (os, vs, response, at, replied, l ∙ lm, refl),
        )
    resolve_item-served n c (prepared not_cacheable) rest s p h = (reply n c, s, refl, refl)
    resolve_item-served n c ignored rest s p h = (reply n c, s, refl, refl)

    pub resolve_items-served :
        (n : ℕ) (cs : List Cmd) (rs : List CachingResult) (s : ShardedLru L)
        → AllPrepared cs rs
        → AllServed m.cache_config.mode n cs rs
        → (vs : List Value) × (s' : ShardedLru L) × (resolve_items lru hash conversions m now rs
              (replies_from n (all_sent m.cache_config.mode cs rs))
              s
            ≡ ok (vs, s'))
          × AllAnswers m.cache_config.mode n cs rs vs
    unfolding resolve_items all_sent
    resolve_items-served n [] [] s p h = ([], s, refl, tt)
    resolve_items-served n (c ∷ cs) (r ∷ rs) s p h =
        let later = n + length (sent_for m.cache_config.mode c r) in
        let first =
          resolve_item-served n c r (replies_from later (all_sent m.cache_config.mode cs rs)) s p.0
            h.0 in
        let others = resolve_items-served later cs rs first.1 p.1 h.1 in
        (
          first.0 ∷ others.0,
          others.1,
          rw replies_from-append (rw (first.2, others.2) refl),
          (first.3, others.3),
        )
    resolve_items-served n [] (r ∷ rs) s p h = absurd p
    resolve_items-served n (c ∷ cs) [] s p h = absurd p

-- ===== src/Caching/Sent.antt =====
-- What is sent for a pipeline of which the cache answers a part.
use redis_rs.Base.{
  ℕ, suc, ◌+◌, ◌≡◌, refl, sym, ap, ◌∙◌, Bool, true, false, List, [], ◌∷◌, ◌++◌, map, append_assoc,
  append-nil, Bytes, length,
}
use redis_rs.Value.Defs.{Outcome, ok, err, panicked, ◌>>=◌}
use redis_rs.Value.Convert.{Conversions}
use redis_rs.Cmd.{Cmd}
use redis_rs.Pipeline.{Pipeline, add_command, contains}
use redis_rs.Caching.Lru.{LruCache}
use redis_rs.Caching.Shards.{ShardedLru}
use redis_rs.Caching.Manager.{CacheMode, all, opt_in, CacheManager}
use redis_rs.Caching.Commands.{
  MultipleCachedCommandPart, CacheableCommand, single, multiple, PrepCacheItem, cached, not_cached,
  not_cacheable, CachingResult, prepared, ignored, part_keys, pttl, add_pttls, client_caching_yes,
  pack_opt_in, remaining_command, pack_command,
}
use redis_rs.Caching.Prepare.{pack_item, prepare, prepare_commands, get_cached_cmd}
use redis_rs.Caching.Prepared.{IsPrepared, AllPrepared, Prepares, get_cached_cmd-Prepares}

abbrev pub opt_in_commands : CacheMode → List Cmd
opt_in_commands all = []
opt_in_commands opt_in = client_caching_yes ∷ []

-- The commands that are sent for one of a pipeline.
unfoldable pub sent_for : CacheMode → Cmd → CachingResult → List Cmd
sent_for mode c (prepared (cached v)) = []
sent_for mode c (prepared (not_cached (single sc))) =
    opt_in_commands mode ++ (pttl sc.redis_key ∷ sc.cmd ∷ [])
sent_for mode c (prepared (not_cached (multiple mc))) =
    opt_in_commands mode ++ (remaining_command mc ∷ map pttl (part_keys mc.commands))
sent_for mode c (prepared not_cacheable) = c ∷ []
sent_for mode c ignored = c ∷ []

add_pttls-commands :
    (keys : List Bytes) (p : Pipeline) → (add_pttls keys p).commands ≡ p.commands ++ map pttl keys
unfolding add_pttls add_command
add_pttls-commands [] p = sym (append-nil p.commands)
add_pttls-commands (key ∷ keys) p =
    add_pttls-commands keys (add_command (pttl key) p)
    ∙ append_assoc p.commands (pttl key ∷ []) (map pttl keys)

pack_opt_in-commands :
    (mode : CacheMode) (p : Pipeline)
    → (pack_opt_in mode p).commands ≡ p.commands ++ opt_in_commands mode
unfolding pack_opt_in add_command
pack_opt_in-commands all p = sym (append-nil p.commands)
pack_opt_in-commands opt_in p = refl

pack_command-commands :
    (mode : CacheMode) (c : Cmd) (cc : CacheableCommand) (p : Pipeline)
    → (pack_command mode cc p).commands ≡ p.commands ++ sent_for mode c (prepared (not_cached cc))
unfolding pack_command sent_for add_command
pack_command-commands mode c (single sc) p = simp (pack_opt_in-commands, append_assoc)
pack_command-commands mode c (multiple mc) p =
    simp (add_pttls-commands, pack_opt_in-commands, append_assoc)

pub length-part_keys :
    (parts : List (ℕ × MultipleCachedCommandPart)) → length (part_keys parts) ≡ length parts
unfolding part_keys
length-part_keys [] = refl
length-part_keys ((i, p) ∷ parts) = ap suc (length-part_keys parts)

unfoldable pub all_sent : CacheMode → List Cmd → List CachingResult → List Cmd
all_sent mode (c ∷ cs) (r ∷ rs) = sent_for mode c r ++ all_sent mode cs rs
all_sent mode _ _ = []

module _ {L : Type 0} (lru : LruCache L) (hash : Bytes → ℕ) (conversions : Conversions)
    (m : CacheManager) (now : ℕ) where
  pack_item-commands :
      (c : Cmd) (item : PrepCacheItem) (p : Pipeline)
      → (pack_item lru hash conversions m now c item p).commands
        ≡ p.commands ++ sent_for m.cache_config.mode c (prepared item)
  unfolding pack_item sent_for add_command
  pack_item-commands c (cached v) p = sym (append-nil p.commands)
  pack_item-commands c (not_cached cc) p =
      unfold sent_for in pack_command-commands m.cache_config.mode c cc p
  pack_item-commands c not_cacheable p = refl

  abbrev pub Packs :
      List Cmd → Pipeline → Outcome (List CachingResult × Pipeline × ShardedLru L) → Type 0
  Packs cs p (ok (rs, p', s)) =
      AllPrepared cs rs × (p'.commands ≡ p.commands ++ all_sent m.cache_config.mode cs rs)
  Packs cs p _ = Unit

  abbrev PacksOne : Cmd → Pipeline → Outcome (CachingResult × Pipeline × ShardedLru L) → Type 0
  PacksOne c p (ok (r, p', s)) =
      IsPrepared c r × (p'.commands ≡ p.commands ++ sent_for m.cache_config.mode c r)
  PacksOne c p _ = Unit

  sent_found :
      (c : Cmd) (p : Pipeline) (o : Outcome (PrepCacheItem × ShardedLru L))
      → Prepares lru hash conversions m now c o
      → PacksOne c p (do
        found ← o
        ok (prepared found.0, pack_item lru hash conversions m now c found.0 p, found.1))
  sent_found c p (ok found) h = (h, pack_item-commands c found.0 p)
  sent_found c p (err e) h = tt
  sent_found c p panicked h = tt

  prepare-PacksOne :
      (skip : Bool) (c : Cmd) (p : Pipeline) (s : ShardedLru L)
      → PacksOne c p (prepare lru hash conversions m now skip c p s)
  unfolding prepare add_command sent_for
  prepare-PacksOne true c p s = (tt, refl)
  prepare-PacksOne false c p s =
      sent_found c p (get_cached_cmd lru hash conversions m now c s)
        (get_cached_cmd-Prepares lru hash conversions m now c s)

  sent_more :
      (c : Cmd) (cs : List Cmd) (p : Pipeline) (r : CachingResult) (p' : Pipeline)
      (o : Outcome (List CachingResult × Pipeline × ShardedLru L))
      → IsPrepared c r
      → p'.commands ≡ p.commands ++ sent_for m.cache_config.mode c r
      → Packs cs p' o
      → Packs (c ∷ cs) p (do others ← o; ok (r ∷ others.0, others.1, others.2))
  unfolding all_sent
  sent_more c cs p r p' (ok (rs, p'', s)) h e k = (
    (h, k.0),
    k.1
        ∙ ap (λ l. l ++ all_sent m.cache_config.mode cs rs) e
        ∙ append_assoc p.commands (sent_for m.cache_config.mode c r)
            (all_sent m.cache_config.mode cs rs),
  )
  sent_more c cs p r p' (err e') h e k = tt
  sent_more c cs p r p' panicked h e k = tt

  sent_all :
      (skipped : List ℕ) (idx : ℕ) (c : Cmd) (cs : List Cmd) (p : Pipeline)
      (o : Outcome (CachingResult × Pipeline × ShardedLru L))
      → PacksOne c p o
      → ((p' : Pipeline) (s : ShardedLru L)
          → Packs cs p' (prepare_commands lru hash conversions m now skipped (idx + 1) cs p' s))
      → Packs (c ∷ cs) p (do
        first ← o
        others ← prepare_commands lru hash conversions m now skipped (idx + 1) cs first.1 first.2
        ok (first.0 ∷ others.0, others.1, others.2))
  sent_all skipped idx c cs p (ok (r, p', s)) h k = sent_more c cs p r p' _ h.0 h.1 (k p' s)
  sent_all skipped idx c cs p (err e) h k = tt
  sent_all skipped idx c cs p panicked h k = tt

  pub prepare_commands-Packs :
      (skipped : List ℕ) (idx : ℕ) (cs : List Cmd) (p : Pipeline) (s : ShardedLru L)
      → Packs cs p (prepare_commands lru hash conversions m now skipped idx cs p s)
  unfolding prepare_commands all_sent
  prepare_commands-Packs skipped idx [] p s = (tt, sym (append-nil p.commands))
  prepare_commands-Packs skipped idx (c ∷ cs) p s =
      sent_all skipped idx c cs p (prepare lru hash conversions m now (contains idx skipped) c p s)
        (prepare-PacksOne (contains idx skipped) c p s)
        (prepare_commands-Packs skipped (idx + 1) cs)

-- ===== src/Cmd.antt =====
-- Commands: redis/src/cmd.rs, with the `cache-aio` feature. `Cmd` keeps the bytes of all arguments
-- in one buffer, and of each argument only where it ends.
pub mod Args
pub mod Index
pub mod Pack
pub mod Length
use redis_rs.Base.{
  ℕ, zero, suc, ◌+◌, ◌-◌, ◌≤◌, ◌≡◌, refl, Bool, true, false, ◌&&◌, ◌||◌, Option, none, some, List,
  [], ◌∷◌, ◌++◌, Bytes, length, take, drop, get_elem?, leb, ltb, ◌==◌, if◌then◌else◌,
}
use redis_rs.Value.Defs.{Outcome, ok, panicked}

pub data Arg {ℓ} (D : Type ℓ) : Type ℓ where
  simple : D → Arg D
  cursor : Arg D

-- The time to live is in milliseconds.
pub record CommandCacheConfig : Type 0 where
  pub enable_cache : Bool
  pub client_side_ttl : Option ℕ

-- `buffer` is the source's `data`. A simple argument holds the offset at which it ends.
pub record Cmd : Type 0 where
  pub buffer : Bytes
  pub args : List (Arg ℕ)
  pub cursor_value : Option ℕ
  pub no_response : Bool
  pub skip_concurrency_limit : Bool
  pub cache : Option CommandCacheConfig

-- `Cmd::new` and, for its effect on the fields, `Cmd::clear`.
unfoldable pub new : Cmd
new = record {
  buffer = [];
  args = [];
  cursor_value = none;
  no_response = false;
  skip_concurrency_limit = false;
  cache = none;
}

unfoldable pub clear : Cmd → Cmd
clear c = record c {
  buffer = [];
  args = [];
  cursor_value = none;
  no_response = false;
  skip_concurrency_limit = false;
  cache = none;
}

unfoldable pub set_cache_config : Cmd → CommandCacheConfig → Cmd
set_cache_config c config = record c { cache = some config }

-- `RedisWrite::write_arg`; `write_arg_fmt` and a finished `writer_for_next_arg` do the same with the
-- bytes that they were given.
unfoldable pub write_arg : Cmd → Bytes → Cmd
write_arg c arg =
    let buffer' = c.buffer ++ arg in
    record c { buffer = buffer'; args = c.args ++ simple (length buffer') ∷ [] }

unfoldable pub cursor_arg : Cmd → ℕ → Cmd
cursor_arg c n = record c { cursor_value = some n; args = c.args ++ cursor ∷ [] }

unfoldable pub in_scan_mode : Cmd → Bool
in_scan_mode c = elim c.cursor_value [ none ↦ false | some n ↦ true ]

unfoldable pub is_empty : Cmd → Bool
is_empty c = elim c.args [ [] ↦ true | x ∷ xs ↦ false ]

unfoldable pub slice : ℕ → ℕ → Bytes → Bytes
slice from to s = take (to - from) (drop from s)

-- The closure of `args_iter`, with `prev` its variable.
unfoldable pub args_from : Bytes → ℕ → List (Arg ℕ) → List (Arg Bytes)
unfolding slice
args_from buffer prev [] = []
args_from buffer prev (simple i ∷ rest) = simple (slice prev i buffer) ∷ args_from buffer i rest
args_from buffer prev (cursor ∷ rest) = cursor ∷ args_from buffer prev rest

-- The offsets of every command that the methods build ascend within its buffer, so that no slice is out
-- of bounds there.
unfoldable pub args_iter : Cmd → List (Arg Bytes)
unfolding args_from
args_iter c = args_from c.buffer 0 c.args

-- `match self.args[i] { Arg::Simple(n) => n, _ => 0 }`
unfoldable pub offset : Option (Arg ℕ) → ℕ
offset none = 0
offset (some (simple n)) = n
offset (some cursor) = 0

unfoldable pub start_of : Cmd → ℕ → ℕ
unfolding offset
start_of c zero = 0
start_of c (suc i) = offset (get_elem? c.args i)

-- `&self.data[start..end]`, which panics unless `start <= end <= self.data.len()`.
unfoldable pub checked_slice : ℕ → ℕ → Bytes → Outcome (Option Bytes)
unfolding slice
checked_slice from to s =
    if leb from to && leb to (length s) then ok (some (slice from to s)) else panicked

unfoldable pub arg_idx : Cmd → ℕ → Outcome (Option Bytes)
unfolding start_of offset checked_slice
arg_idx c i =
    let from = start_of c i in
    let to = offset (get_elem? c.args i) in
    if leb (length c.args) i
    then ok none
    else if from == 0 && to == 0
    then ok none
    else checked_slice from to c.buffer

-- ===== src/Cmd/Pack.antt =====
-- How a command is written for the server: `countdigits`, `bulklen`, `args_len`, `write_command`,
-- `get_packed_command` and `pack_command` of redis/src/cmd.rs. `format` is that of the `itoa` crate.
use redis_rs.Base.{
  ℕ, zero, suc, ◌+◌, ◌/◌, Option, none, some, List, [], ◌∷◌, ◌++◌, map, Bytes, length, ltb,
  if◌then◌else◌,
}
use redis_rs.Cmd.{Cmd, Arg, simple, cursor, args_iter, is_empty}

-- The `loop` of `countdigits`; `v + 1` rounds are enough.
unfoldable pub countdigits_loop : ℕ → ℕ → ℕ → ℕ
countdigits_loop zero v result = result
countdigits_loop (suc f) v result =
    let next = countdigits_loop f (v / 10000) (result + 4) in
    if ltb v 10
    then result
    else if ltb v 100
    then result + 1
    else if ltb v 1000
    then result + 2
    else if ltb v 10000
    then result + 3
    else next

unfoldable pub countdigits : ℕ → ℕ
unfolding countdigits_loop
countdigits v = countdigits_loop (suc v) v 1

unfoldable pub bulklen : ℕ → ℕ
unfolding countdigits
bulklen n = 1 + countdigits n + 2 + n + 2

unfoldable pub item_len : ℕ → Arg Bytes → ℕ
unfolding countdigits
item_len cursor_value cursor = countdigits cursor_value
item_len cursor_value (simple val) = length val

unfoldable pub items_len : ℕ → List (Arg Bytes) → ℕ
unfolding item_len bulklen
items_len cursor_value [] = 0
items_len cursor_value (item ∷ rest) =
    bulklen (item_len cursor_value item) + items_len cursor_value rest

unfoldable pub args_len : List (Arg Bytes) → ℕ → ℕ
unfolding items_len
args_len args cursor_value = 1 + countdigits (length args) + 2 + items_len cursor_value args

unfoldable pub cursor_or_zero : Option ℕ → ℕ
cursor_or_zero none = 0
cursor_or_zero (some n) = n

unfoldable pub cmd_len : Cmd → ℕ
unfolding args_len cursor_or_zero
cmd_len c = args_len (args_iter c) (cursor_or_zero c.cursor_value)

abbrev pub crlf : Bytes
crlf = 0x0d ∷ 0x0a ∷ []

module _ (format : ℕ → Bytes) where
  unfoldable pub item_bytes : ℕ → Arg Bytes → Bytes
  item_bytes cursor_value cursor = format cursor_value
  item_bytes cursor_value (simple val) = val

  -- What the loop of `write_command` appends.
  unfoldable pub write_items : ℕ → List (Arg Bytes) → Bytes
  unfolding item_bytes
  write_items cursor_value [] = []
  write_items cursor_value (item ∷ rest) =
      let bytes = item_bytes cursor_value item in
      b'$' ∷ (format (length bytes) ++ (crlf ++ (bytes ++ (crlf ++ write_items cursor_value rest))))

  -- `write_command`, with what stands in the output already.
  unfoldable pub write_command : Bytes → List (Arg Bytes) → ℕ → Bytes
  unfolding write_items
  write_command out args cursor_value =
      out ++ b'*' ∷ (format (length args) ++ (crlf ++ write_items cursor_value args))

  unfoldable pub write_packed_command : Bytes → Cmd → Bytes
  unfolding write_command cursor_or_zero
  write_packed_command out c = write_command out (args_iter c) (cursor_or_zero c.cursor_value)

  unfoldable pub get_packed_command : Cmd → Bytes
  unfolding write_packed_command is_empty
  get_packed_command c = if is_empty c then [] else write_packed_command [] c

  -- `pack_command`, through `encode_command`.
  unfoldable pub pack_command : List Bytes → Bytes
  unfolding write_command
  pack_command args = write_command [] (map simple args) 0

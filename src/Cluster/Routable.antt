-- ===== src/Cluster/Routable.antt =====
-- `Routable` of redis/src/cluster_handling/routing.rs: what routing reads of a request, and the two
-- kinds of request, commands and values.
use redis_rs.Base.{
  ℕ, suc, ◌≡◌, Bool, false, String, Option, none, some, List, [], ◌∷◌, ◌++◌, map, Bytes, one_of,
  get_elem?, to_ascii_uppercase, eq_ignore_ascii_case, if◌then◌else◌,
}
use redis_rs.Value.Defs.{Value, array, bulk_string, to_list, ok}
use redis_rs.Cmd.{Cmd, Arg, simple, cursor, args_iter}
use mathlib.Core.Option
use redis_rs.Cmd

pub record Routable : Type 0 where
  pub arg_idx : ℕ → Option Bytes
  pub position : Bytes → Option ℕ

-- The commands whose name has a second word.
abbrev two_word_commands : List String
two_word_commands =
    "XGROUP" ∷ "OBJECT" ∷ "SLOWLOG" ∷ "FUNCTION" ∷ "MODULE" ∷ "COMMAND" ∷ "PUBSUB" ∷ "CONFIG"
    ∷ "MEMORY" ∷ "XINFO" ∷ "CLIENT" ∷ "ACL" ∷ "SCRIPT" ∷ "CLUSTER" ∷ "LATENCY" ∷ []

unfoldable pub second_word : Bytes → Option Bytes → Bytes
second_word primary none = primary
second_word primary (some secondary) = primary ++ b' ' ∷ map to_ascii_uppercase secondary

unfoldable pub full_command : Bytes → Option Bytes → Bytes
unfolding second_word
full_command primary secondary =
    if one_of primary two_word_commands then second_word primary secondary else primary

unfoldable pub command_of : Option Bytes → Option Bytes → Option Bytes
unfolding full_command
command_of none second = none
command_of (some first) second = some (full_command (map to_ascii_uppercase first) second)

-- `Routable::command`.
unfoldable pub command : Routable → Option Bytes
unfolding command_of
command r = command_of (r.arg_idx 0) (r.arg_idx 1)

-- The index of the first argument that matches, `iter().position(…)`.
unfoldable pub position_by {ℓ} : {A : Type ℓ} → (A → Bool) → List A → Option ℕ
position_by p [] = none
position_by p (x ∷ xs) = if p x then some 0 else Option.map suc (position_by p xs)

unfoldable pub arg_matches : Bytes → Arg Bytes → Bool
arg_matches candidate (simple d) = eq_ignore_ascii_case d candidate
arg_matches candidate cursor = false

unfoldable pub value_matches : Bytes → Value → Bool
value_matches candidate (bulk_string d) = eq_ignore_ascii_case d candidate
value_matches candidate _ = false

-- A command for which `Cmd::arg_idx` has an answer at every index. It panics on some commands with
-- cursors; a command without them has an answer (Cmd.Index).
pub record Searchable : Type 0 where
  pub cmd : Cmd
  pub found : ℕ → Option Bytes
  pub is_found : (i : ℕ) → Cmd.arg_idx cmd i ≡ ok (found i)

-- `impl Routable for Cmd`, on the commands for which `arg_idx` does not panic.
unfoldable pub cmd_routable : Searchable → Routable
unfolding position_by arg_matches
cmd_routable c = record {
  arg_idx = c.found;
  position = λ candidate. position_by (arg_matches candidate) (args_iter c.cmd);
}

bulk_of : Option Value → Option Bytes
bulk_of (some (bulk_string d)) = some d
bulk_of _ = none

-- `impl Routable for Value`.
unfoldable pub value_routable : Value → Routable
unfolding bulk_of to_list position_by value_matches
value_routable (array items) = record {
  arg_idx = λ i. bulk_of (get_elem? (to_list items) i);
  position = λ candidate. position_by (value_matches candidate) (to_list items);
}
value_routable _ = record { arg_idx = λ i. none; position = λ candidate. none }

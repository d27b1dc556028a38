-- ===== src/Pipeline.antt =====
-- Pipelines of commands: redis/src/pipeline.rs, and the reading of their replies by
-- `Connection::req_packed_commands` of redis/src/connection.rs. The set of ignored commands is the list
-- of their indices. `from_redis_value` of the type that the caller asks for is a parameter.
pub mod Packed
pub mod Ignored
pub mod Sync
use redis_rs.Base.{
  ℕ, zero, suc, ◌+◌, ◌-◌, Bool, true, false, ◌||◌, Option, none, some, List, [], ◌∷◌, ◌++◌, Bytes,
  String, codes, length, ltb, ◌==◌, if◌then◌else◌,
}
use redis_rs.Errors.Server.{ServerError}
use redis_rs.Errors.Redis.{RedisError, general, client, unexpected_return_type, transaction_aborted}
use redis_rs.Errors.Redis
use redis_rs.Value.Defs.{
  Value, nil, array, push, server_error, to_list, of_list, Outcome, ok, err, panicked, ◌>>=◌,
}
use redis_rs.Value.Methods.{extract_error}
use redis_rs.Cmd.{Cmd, new, write_arg}
use redis_rs.Cmd.Pack.{write_packed_command, cmd_len}
use redis_rs.Multiplexed.{Reply, reply, failure, server_error_of}

pub record Pipeline : Type 0 where
  pub commands : List Cmd
  pub transaction_mode : Bool
  pub ignored_commands : List ℕ
  pub ignore_errors : Bool

-- `Pipeline::new`.
unfoldable pub empty : Pipeline
empty = record {
  commands = [];
  transaction_mode = false;
  ignored_commands = [];
  ignore_errors = false;
}

unfoldable pub atomic : Pipeline → Pipeline
atomic p = record p { transaction_mode = true }

unfoldable pub ignore_all_errors : Pipeline → Pipeline
ignore_all_errors p = record p { ignore_errors = true }

unfoldable pub add_command : Cmd → Pipeline → Pipeline
add_command c p = record p { commands = p.commands ++ c ∷ [] }

-- `crate::cmd` and `Pipeline::cmd`.
unfoldable pub named : Bytes → Cmd
unfolding new write_arg
named name = write_arg new name

unfoldable pub cmd : Bytes → Pipeline → Pipeline
unfolding named add_command
cmd name p = add_command (named name) p

unfoldable pub ignore_command : ℕ → Pipeline → Pipeline
ignore_command zero p = p
ignore_command (suc i) p = record p { ignored_commands = i ∷ p.ignored_commands }

unfoldable pub ignore : Pipeline → Pipeline
unfolding ignore_command
ignore p = ignore_command (length p.commands) p

-- `get_last_command` and what is then done with the command.
unfoldable pub change_last : (Cmd → Cmd) → List Cmd → Outcome (List Cmd)
change_last change [] = panicked
change_last change (c ∷ []) = ok (change c ∷ [])
change_last change (c ∷ d ∷ cs) = do cs' ← change_last change (d ∷ cs); ok (c ∷ cs')

unfoldable pub arg : Bytes → Pipeline → Outcome Pipeline
unfolding change_last write_arg
arg bytes p = do
  commands' ← change_last (λ c. write_arg c bytes) p.commands
  ok (record p { commands = commands' })

unfoldable pub clear : Pipeline → Pipeline
clear p = record p { commands = []; ignored_commands = [] }

module _ (format : ℕ → Bytes) where
  -- The loop of `write_pipeline`.
  unfoldable pub write_commands : Bytes → List Cmd → Bytes
  unfolding write_packed_command
  write_commands out [] = out
  write_commands out (c ∷ cs) = write_commands (write_packed_command format out c) cs

  unfoldable pub write_pipeline : Bytes → List Cmd → Bool → Bytes
  unfolding write_commands named
  write_pipeline out cmds true =
      write_packed_command format
        (write_commands (write_packed_command format out (named (codes "MULTI"))) cmds)
        (named (codes "EXEC"))
  write_pipeline out cmds false = write_commands out cmds

  -- `encode_pipeline`.
  unfoldable pub get_packed_pipeline : Pipeline → Bytes
  unfolding write_pipeline
  get_packed_pipeline p = write_pipeline [] p.commands p.transaction_mode

-- What `write_pipeline` reserves.
unfoldable pub commands_len : List Cmd → ℕ
unfolding cmd_len
commands_len [] = 0
commands_len (c ∷ cs) = cmd_len c + commands_len cs

unfoldable pub reserved : List Cmd → Bool → ℕ
unfolding commands_len named
reserved cmds true =
    cmd_len (named (codes "MULTI")) + cmd_len (named (codes "EXEC")) + commands_len cmds
reserved cmds false = commands_len cmds

-- The offset and the count that `query` and `query_async` pass on.
unfoldable pub offset_and_count : Pipeline → ℕ × ℕ
offset_and_count p =
    if p.transaction_mode then (length p.commands + 1, 1) else (0, length p.commands)

abbrev pub contains : ℕ → List ℕ → Bool
contains i [] = false
contains i (j ∷ js) = i == j || contains i js

-- The `enumerate` and `filter_map` of `filter_ignored_results`, from index `i` on.
unfoldable pub filter_from : List ℕ → ℕ → List Value → List Value
filter_from ignored i [] = []
filter_from ignored i (v ∷ vs) =
    let rest = filter_from ignored (suc i) vs in if contains i ignored then rest else v ∷ rest

-- The shortcut for an empty set is a case of its own, as in the code.
unfoldable pub filter_unless_empty : List ℕ → List Value → List Value
unfolding filter_from
filter_unless_empty [] resp = resp
filter_unless_empty (j ∷ js) resp = filter_from (j ∷ js) 0 resp

unfoldable pub filter_ignored_results : Pipeline → List Value → List Value
unfolding filter_unless_empty
filter_ignored_results p resp = filter_unless_empty p.ignored_commands resp

abbrev cons_error : ℕ → Option ServerError → List (ℕ × ServerError) → List (ℕ × ServerError)
cons_error i none es = es
cons_error i (some e) es = (i, e) ∷ es

-- The `enumerate` and `filter_map` that collect the server errors, from index `i` on.
unfoldable pub server_errors : ℕ → List Value → List (ℕ × ServerError)
unfolding server_error_of
server_errors i [] = []
server_errors i (v ∷ vs) = cons_error i (server_error_of v) (server_errors (suc i) vs)

-- The last of the values, as `pop` returns it.
abbrev pub last_of : List Value → Option Value
last_of [] = none
last_of (v ∷ []) = some v
last_of (v ∷ w ∷ vs) = last_of (w ∷ vs)

module _ {T : Type 0} (from_redis_value : Value → Outcome T) where
  unfoldable pub compose_by_errors : Pipeline → List Value → List (ℕ × ServerError) → Outcome T
  unfolding extract_error filter_ignored_results
  compose_by_errors p response (e ∷ es) = err (Redis.pipeline (e ∷ es))
  compose_by_errors p response [] =
      extract_error (array (of_list (filter_ignored_results p response))) >>= from_redis_value

  unfoldable pub compose_response : Pipeline → List Value → Outcome T
  unfolding server_errors filter_ignored_results compose_by_errors
  compose_response p response =
      if p.ignore_errors
      then from_redis_value (array (of_list (filter_ignored_results p response)))
      else compose_by_errors p response (server_errors 0 response)

  unfoldable pub complete_transaction : Pipeline → Option Value → Outcome T
  unfolding compose_response to_list
  complete_transaction p (some nil) = from_redis_value nil
  complete_transaction p (some (array items)) = compose_response p (to_list items)
  complete_transaction p _ =
      err (general unexpected_return_type "Invalid response when parsing multi response" none)

  unfoldable pub complete_request : Pipeline → List Value → Outcome T
  unfolding compose_response complete_transaction
  complete_request p response =
      if p.transaction_mode
      then complete_transaction p (last_of response)
      else compose_response p response

-- The variables of the loop of `Connection::req_packed_commands`.
pub record Reads : Type 0 where
  pub idx : ℕ
  pub count : ℕ
  pub rv : List Value
  pub first_err : Option RedisError
  pub found : List (ℕ × ServerError)

-- The round of the loop for a reply, before `idx` is increased. The subtraction of 1 panics at 0.
unfoldable pub record_error : ℕ → ServerError → Reads → Outcome Reads
record_error offset e s =
    if ltb s.idx offset
    then if s.idx == 0 then panicked else ok (record s { found = s.found ++ (s.idx - 1, e) ∷ [] })
    else ok (record s { rv = s.rv ++ server_error e ∷ [] })

unfoldable pub record_item : ℕ → Value → Reads → Reads
record_item offset v s = if ltb s.idx offset then s else record s { rv = s.rv ++ v ∷ [] }

unfoldable pub record_value : ℕ → Value → Reads → Outcome Reads
unfolding record_error record_item
record_value offset (server_error e) s = record_error offset e s
record_value offset (push kind vs) s = ok (record s { count = suc s.count })
record_value offset v s = ok (record_item offset v s)

unfoldable pub first_failure : Option RedisError → RedisError → Option RedisError
first_failure none e = some e
first_failure (some first) e = some first

unfoldable pub record_reply : ℕ → Reply → Reads → Outcome Reads
unfolding record_value first_failure
record_reply offset (reply v) s = record_value offset v s
record_reply offset (failure e) s = ok (record s { first_err = first_failure s.first_err e })

-- What is returned after the loop.
unfoldable pub finished :
    List (ℕ × ServerError) → Option RedisError → List Value → Outcome (List Value)
finished (e ∷ es) first rv = err (transaction_aborted (e ∷ es))
finished [] (some e) rv = err e
finished [] none rv = ok rv

-- The loop over the replies that have come, `none` if it waits for another.
unfoldable pub read_loop : ℕ → List Reply → Reads → Outcome (Option (List Value))
unfolding record_reply finished
read_loop offset [] s = elim (ltb s.idx (offset + s.count)) [
  | true ↦ ok none
  | false ↦ finished s.found s.first_err s.rv >>= λ vs. ok (some vs)
]
read_loop offset (r ∷ rs) s = elim (ltb s.idx (offset + s.count)) [
  | true ↦ record_reply offset r s >>= λ s'. read_loop offset rs (record s' { idx = suc s'.idx })
  | false ↦ finished s.found s.first_err s.rv >>= λ vs. ok (some vs)
]

-- `req_packed_commands`, after the commands have been sent.
unfoldable pub receive : ℕ → ℕ → List Reply → Outcome (Option (List Value))
unfolding read_loop
receive offset count replies =
    read_loop offset replies
      (record { idx = 0; count = count; rv = []; first_err = none; found = [] })

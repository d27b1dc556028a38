-- ===== src/Examples/Pipelines.antt =====
-- The theorems on pipelines at concrete inputs.
use redis_rs.Base.{
  ◌≡◌, refl, Bool, true, false, none, some, List, [], ◌∷◌, ◌++◌, map, codes, to_decimal, arith,
}
use redis_rs.Errors.Server.{known, no_script, exec_abort}
use redis_rs.Value.Methods.{errors_in}
use redis_rs.Value.Defs.{array, of_list, ok, nil, okay, simple_string, server_error}
use redis_rs.Cmd.{Cmd, new, write_arg, cursor_arg, args_iter, is_empty}
use redis_rs.Cmd.Pack.{item_bytes, cursor_or_zero}
use redis_rs.Resp.Stream.{done}
use redis_rs.Multiplexed.{reply, push_of, server_error_of}
use redis_rs.Multiplexed.Replies.{Exchange, transaction, values_of, answer_of}
use redis_rs.Pipeline.{Pipeline, empty, compose_response, get_packed_pipeline, receive}
use redis_rs.Pipeline.Ignored.{built, kept, compose_response-built}
use redis_rs.Pipeline.Packed.{
  read_values, all_arguments, sent_commands, read_values-get_packed_pipeline,
}
use redis_rs.Pipeline.Sync.{offset_of, count_of, complete, answered_values, receive-answered_values}
use redis_rs.Examples.Wire.{from_left, no_f64, set_command, scan_command}

-- The first command is ignored.
abbrev flags : List (Cmd × Bool)
flags = (set_command, true) ∷ (scan_command, false) ∷ []

compose_response-built_example :
    compose_response (λ v. ok v) (built flags empty) (okay ∷ nil ∷ [])
    ≡ ok (array (of_list (kept flags (okay ∷ nil ∷ []))))
unfolding errors_in
compose_response-built_example =
    compose_response-built (λ v. ok v) flags (okay ∷ nil ∷ []) (omega arith) (refl, (refl, tt))

abbrev pipeline : Pipeline
pipeline = record {
  commands = scan_command ∷ [];
  transaction_mode = true;
  ignored_commands = [];
  ignore_errors = false;
}

read_values-get_packed_pipeline_example :
    read_values from_left no_f64 3 (get_packed_pipeline to_decimal pipeline ++ codes "*0")
    ≡ done (all_arguments to_decimal (sent_commands pipeline.commands true)) (codes "*0")
unfolding write_arg cursor_arg new args_iter cursor_or_zero is_empty to_decimal item_bytes
read_values-get_packed_pipeline_example =
    read_values-get_packed_pipeline to_decimal (λ n. refl) from_left no_f64 pipeline (codes "*0")
      (refl, omega arith, (omega arith, (omega arith, tt)), tt)

-- A transaction the second command of which the server refuses.
abbrev refused : Exchange
refused =
    transaction (some 1) okay
      (simple_string (codes "QUEUED") ∷ server_error (known no_script none) ∷ [])
      (server_error (known exec_abort none))

receive-answered_values_example :
    receive (offset_of refused) (count_of refused) (map reply (values_of refused))
    ≡ complete (answered_values (answer_of refused).1)
unfolding push_of server_error_of
receive-answered_values_example =
    receive-answered_values refused tt (refl, refl, (refl, (refl, tt)), refl)

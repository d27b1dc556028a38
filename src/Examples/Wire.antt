-- ===== src/Examples/Wire.antt =====
-- The theorems on commands, replies and errors at concrete inputs, and a parser interface to apply them
-- to.
use redis_rs.Base.{
  ℕ, zero, suc, ◌≡◌, refl, ap, Option, none, some, List, [], ◌∷◌, ◌++◌, Bytes, codes, length, ◌==◌,
  if◌then◌else◌, to_decimal, arith, get_elem?,
}
use redis_rs.Errors.Server.{moved, ask, known, err_parser, error_line}
use redis_rs.Errors.Server.{err_parser-error_line}
use redis_rs.Value.Defs.{Value, Values, end, item, ok, array, int, server_error}
use redis_rs.Value.Integer.{pos}
use redis_rs.Value.Methods.{extract_error, extract_error-first_error, errors_in, first_error}
use redis_rs.Cmd.{Cmd, new, write_arg, cursor_arg, args_iter, arg_idx, offset, is_empty}
use redis_rs.Cmd.Args.{IsValid, new-IsValid, write_args, write_args-IsValid}
use redis_rs.Cmd.Index.{arg_idx-args_iter, text_of}
use redis_rs.Cmd.Pack.{cursor_or_zero, item_bytes, get_packed_command}
use redis_rs.Resp.Stream.{Parsed, done, failed, incomplete, IsLine, Combine, ◌>>=◌}
use redis_rs.Resp.Parser.{parse_redis_value}
use redis_rs.Resp.RoundTrip.{parse_redis_value-get_packed_command, bulk_strings}

-- A parser for each token, reading the input from the left.
abbrev any_byte : Bytes → Parsed ℕ
any_byte [] = incomplete
any_byte (c ∷ rest) = done c rest

abbrev cons_line : ℕ → Parsed Bytes → Parsed Bytes
cons_line c (done text rest) = done (c ∷ text) rest
cons_line c (failed e) = failed e
cons_line c incomplete = incomplete
cons_line c Parsed.panicked = Parsed.panicked

-- The second argument is the line's rest, read with and without the byte in hand.
abbrev at_cr : ℕ → Bytes → Parsed Bytes → Parsed Bytes
at_cr c [] later = incomplete
at_cr c (d ∷ rest) later =
    if c == 0x0d then (if d == 0x0a then done [] rest else cons_line c later) else cons_line c later

read_line : Bytes → Parsed Bytes
read_line [] = incomplete
read_line (c ∷ rest) = at_cr c rest (read_line rest)

read_n : ℕ → Bytes → Parsed Bytes
read_n zero s = done [] s
read_n (suc n) [] = incomplete
read_n (suc n) (c ∷ rest) = cons_line c (read_n n rest)

read_crlf : Bytes → Parsed (Unit {0})
read_crlf [] = incomplete
read_crlf (c ∷ []) = incomplete
read_crlf (c ∷ d ∷ rest) =
    if c == 0x0d
    then (if d == 0x0a then done tt rest else failed "expected lf newline")
    else failed "expected crlf newline"

read_count : ℕ → (Bytes → Parsed Value) → Bytes → Parsed Values
read_count zero p s = done end s
read_count (suc n) p s =
    p s >>= λ v rest. read_count n p rest >>= λ vs rest'. done (item v vs) rest'

read_line-found :
    (text rest : Bytes) → IsLine text → read_line (text ++ 0x0d ∷ 0x0a ∷ rest) ≡ done text rest
unfolding read_line
read_line-found [] rest h = refl
read_line-found (c ∷ []) rest h = ground (arith, h.0)
read_line-found (c ∷ d ∷ text) rest h = ground (arith, h.0, read_line-found (d ∷ text) rest h.1)

read_n-found : (text rest : Bytes) → read_n (length text) (text ++ rest) ≡ done text rest
unfolding read_n
read_n-found [] rest = refl
read_n-found (c ∷ text) rest = ap (cons_line c) (read_n-found text rest)

pub from_left : Combine
from_left = record {
  any = any_byte;
  line = read_line;
  take = read_n;
  crlf = read_crlf;
  count = read_count;
  any_cons = λ c rest. refl;
  any_nil = refl;
  line_found = read_line-found;
  take_found = read_n-found;
  crlf_found = λ rest. unfold read_crlf in refl;
  count_zero = λ p s. unfold read_count in refl;
  count_suc = λ n p s. unfold read_count in refl;
}

-- `SET k v`.
abbrev pub set_words : List Bytes
set_words = codes "SET" ∷ codes "k" ∷ codes "v" ∷ []

abbrev pub set_command : Cmd
set_command = write_args new set_words

-- `SCAN` with a cursor.
abbrev pub scan_command : Cmd
scan_command = cursor_arg (write_arg new (codes "SCAN")) 42

set_command-IsValid : IsValid set_command
set_command-IsValid = write_args-IsValid new set_words new-IsValid

pub no_f64 : Bytes → Option ℕ
no_f64 s = none

parse_redis_value-get_packed_command_example :
    parse_redis_value from_left no_f64 (get_packed_command to_decimal scan_command ++ codes "+OK")
    ≡ done (array (bulk_strings to_decimal 42 (args_iter scan_command))) (codes "+OK")
unfolding write_arg cursor_arg new args_iter cursor_or_zero is_empty to_decimal item_bytes
parse_redis_value-get_packed_command_example =
    parse_redis_value-get_packed_command from_left no_f64 to_decimal (λ n. refl) scan_command
      (codes "+OK") refl (omega arith) (omega arith, (omega arith, tt))

arg_idx-args_iter_example :
    arg_idx set_command 1 ≡ ok (text_of (get_elem? (args_iter set_command) 1))
unfolding write_args write_arg new offset
arg_idx-args_iter_example = arg_idx-args_iter set_command 1 set_command-IsValid tt (omega arith)

-- An array that holds an error below its first item.
abbrev nested : Value
nested = array (item (int (pos 1)) (item (array (item (server_error (known ask none)) end)) end))

extract_error-first_error_example : extract_error nested ≡ first_error (errors_in nested) nested
extract_error-first_error_example = extract_error-first_error nested

err_parser-error_line_example :
    err_parser (error_line (known moved (some (codes "7 host:1"))))
    ≡ known moved (some (codes "7 host:1"))
err_parser-error_line_example = err_parser-error_line moved (some (codes "7 host:1"))

-- ===== src/Resp/RoundTrip.antt =====
-- What the client writes for a command is read by the reply parser as the array of its arguments:
-- `get_packed_command` of redis/src/cmd.rs against `value` of redis/src/parser.rs.
use redis_rs.Base.{
  ℕ, suc, ◌≤◌, ◌≡◌, refl, ap, ◌∙◌, false, Option, List, [], ◌∷◌, ◌++◌, append_assoc, Bytes, length,
  IsDigits, to_decimal, to_decimal-IsDigits, parse_digits-to_decimal,
}
use redis_rs.Value.Integer.{pos, signed_digits, i64_max}
use redis_rs.Value.Defs.{Values, array, bulk_string, end, item}
use redis_rs.Cmd.{Cmd, Arg, args_iter, is_empty}
use redis_rs.Cmd.Pack.{crlf, cursor_or_zero, item_bytes, write_items, get_packed_command}
use redis_rs.Resp.Stream.{done, ◌>>=◌, Combine}
use redis_rs.Resp.Parser.{
  line, integer, take_crlf, bulk, items, dispatch, value, expect, parse_redis_value,
  max_recurse_depth,
}
use redis_rs.Resp.Digits.{trim-digits, is_utf8-digits, IsLine-digits, parse_i64-digits}

-- The arguments as the values that a server reads.
unfoldable pub bulk_strings : (ℕ → Bytes) → ℕ → List (Arg Bytes) → Values
bulk_strings format cur [] = end
bulk_strings format cur (arg ∷ args) =
    item (bulk_string (item_bytes format cur arg)) (bulk_strings format cur args)

-- Each argument's length is an `i64`.
abbrev pub Fits : (ℕ → Bytes) → ℕ → List (Arg Bytes) → Type 0
Fits format cur [] = Unit
Fits format cur (arg ∷ args) = (length (item_bytes format cur arg) ≤ i64_max) × Fits format cur args

module _ (c : Combine) (parse_f64 : Bytes → Option ℕ) where
  line-digits :
      (text rest : Bytes)
      → IsDigits text
      → line c parse_f64 (text ++ (crlf ++ rest)) ≡ done text rest
  unfolding line
  line-digits text rest d =
      rw (c.line_found text rest (IsLine-digits text d)) (rw (is_utf8-digits text d))

  integer-to_decimal :
      (n : ℕ) (rest : Bytes)
      → n ≤ i64_max
      → integer c parse_f64 (to_decimal n ++ (crlf ++ rest)) ≡ done (pos n) rest
  unfolding integer signed_digits
  integer-to_decimal n rest h =
      let d = to_decimal-IsDigits n in
      rw (line-digits (to_decimal n) rest d) (
        rw (trim-digits (to_decimal n) d, parse_i64-digits (to_decimal n) d)
          (rw (parse_digits-to_decimal i64_max n h, signed_digits) (unfold expect in refl)))

  module _ (format : ℕ → Bytes) (decimal : (n : ℕ) → format n ≡ to_decimal n) where
    integer-format :
        (n : ℕ) (rest : Bytes)
        → n ≤ i64_max
        → integer c parse_f64 (format n ++ (crlf ++ rest)) ≡ done (pos n) rest
    integer-format n rest h = rw (decimal n) (integer-to_decimal n rest h)

    take_crlf-append :
        (text rest : Bytes)
        → take_crlf c parse_f64 (length text) (text ++ (crlf ++ rest)) ≡ done text rest
    unfolding take_crlf
    take_crlf-append text rest = rw (c.take_found text (crlf ++ rest)) (rw (c.crlf_found rest))

    value-bulk :
        (levels : ℕ) (bytes tail : Bytes)
        → length bytes ≤ i64_max
        → value c parse_f64
            (suc levels)
            (b'$' ∷ (format (length bytes) ++ (crlf ++ (bytes ++ (crlf ++ tail)))))
          ≡ done (bulk_string bytes) tail
    unfolding value dispatch bulk
    value-bulk levels bytes tail h =
        let tail' = bytes ++ (crlf ++ tail) in
        rw (c.any_cons b'$' (format (length bytes) ++ (crlf ++ tail')))
          (rw (integer-format (length bytes) tail' h) (rw (take_crlf-append bytes tail)))

    write_items-append :
        (cur : ℕ) (arg : Arg Bytes) (args : List (Arg Bytes)) (rest : Bytes)
        → let bytes = item_bytes format cur arg in
          write_items format cur (arg ∷ args) ++ rest
          ≡ b'$'
            ∷ (format (length bytes)
                ++ (crlf ++ (bytes ++ (crlf ++ (write_items format cur args ++ rest)))))
    unfolding write_items
    write_items-append cur arg args rest = simp append_assoc

    count-write_items :
        (levels cur : ℕ) (args : List (Arg Bytes)) (rest : Bytes)
        → Fits format cur args
        → c.count
            (length args)
            (value c parse_f64 (suc levels))
            (write_items format cur args ++ rest)
          ≡ done (bulk_strings format cur args) rest
    unfolding bulk_strings write_items
    count-write_items levels cur [] rest h = c.count_zero (value c parse_f64 (suc levels)) rest
    count-write_items levels cur (arg ∷ args) rest h =
        let bytes = item_bytes format cur arg in
        let parser = value c parse_f64 (suc levels) in
        let rest' = write_items format cur args ++ rest in
        c.count_suc (length args) parser (write_items format cur (arg ∷ args) ++ rest)
        ∙ (ap
              (λ s.
                parser s >>= λ v r. c.count (length args) parser r >>= λ vs r'. done (item v vs) r')
              (write_items-append cur arg args rest)
            ∙ (ap
                  (λ m.
                    m >>= λ v r. c.count (length args) parser r >>= λ vs r'. done (item v vs) r')
                  (value-bulk levels bytes rest' h.0)
                ∙ ap (λ m. m >>= λ vs r'. done (item (bulk_string bytes) vs) r')
                    (count-write_items levels cur args rest h.1)))

    value-array :
        (levels cur : ℕ) (args : List (Arg Bytes)) (rest : Bytes)
        → length args ≤ i64_max
        → Fits format cur args
        → value c parse_f64
            (suc (suc levels))
            (b'*' ∷ (format (length args) ++ (crlf ++ (write_items format cur args ++ rest))))
          ≡ done (array (bulk_strings format cur args)) rest
    unfolding value dispatch items
    value-array levels cur args rest h f =
        let tail = write_items format cur args ++ rest in
        rw (c.any_cons b'*' (format (length args) ++ (crlf ++ tail)))
          (rw (integer-format (length args) tail h) (rw (count-write_items levels cur args rest f)))

    get_packed_command-append :
        (cmd : Cmd) (rest : Bytes)
        → is_empty cmd ≡ false
        → get_packed_command format cmd ++ rest
          ≡ b'*'
            ∷ (format (length (args_iter cmd))
                ++ (crlf
                    ++ (write_items format (cursor_or_zero cmd.cursor_value) (args_iter cmd)
                        ++ rest)))
    unfolding get_packed_command
    get_packed_command-append cmd rest e = rw e (simp append_assoc)

    -- The parser reads what a command's bytes were, and leaves what follows them: the array of the
    -- command's arguments, cursors as the cursor's number. The command is not empty, and its
    -- arguments' number and lengths are within `i64`.
    pub parse_redis_value-get_packed_command :
        (cmd : Cmd) (rest : Bytes)
        → is_empty cmd ≡ false
        → length (args_iter cmd) ≤ i64_max
        → Fits format (cursor_or_zero cmd.cursor_value) (args_iter cmd)
        → parse_redis_value c parse_f64 (get_packed_command format cmd ++ rest)
          ≡ done
              (array (bulk_strings format (cursor_or_zero cmd.cursor_value) (args_iter cmd)))
              rest
    unfolding parse_redis_value
    parse_redis_value-get_packed_command cmd rest e h f =
        ap (value c parse_f64 max_recurse_depth) (get_packed_command-append cmd rest e)
        ∙ value-array 98 (cursor_or_zero cmd.cursor_value) (args_iter cmd) rest h f

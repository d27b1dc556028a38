-- ===== src/Resp/Parser.antt =====
-- `value`, `get_push_kind` and `parse_redis_value` of redis/src/parser.rs.
use redis_rs.Base.{
  ℕ, zero, suc, ◌+◌, ◌*◌, true, false, String, Option, none, some, [], Bytes, codes, bytes_eq, leb,
  ◌==◌, if◌then◌else◌,
}
use redis_rs.Errors.Server.{err_parser, split_first}
use redis_rs.Value.Integer.{ℤ, pos, negsuc, parse_i64, as_unsigned}
use redis_rs.Value.Defs.{
  Value, Values, Pairs, nil, int, bulk_string, array, simple_string, okay, map, attribute, set,
  double, boolean, verbatim_string, big_number, push, server_error, end, item, end_pairs, pair,
  VerbatimFormat, unknown, markdown, text, PushKind, other, invalidate, message, pmessage, smessage,
  unsubscribe, punsubscribe, sunsubscribe, subscribe, psubscribe, ssubscribe,
}
use redis_rs.Resp.Stream.{Parsed, done, failed, panicked, ◌>>=◌, Combine}
use redis_rs.Resp.Text.{is_utf8, from_utf8_lossy, trim}

-- `MAX_RECURSE_DEPTH`.
abbrev pub max_recurse_depth : ℕ
max_recurse_depth = 100

-- The largest `usize`, on a 64-bit target, and the number of its values.
abbrev pub usize_max : ℕ
usize_max = 18446744073709551615

abbrev pub usize_values : ℕ
usize_values = 18446744073709551616

unfoldable pub get_push_kind : Bytes → PushKind
unfolding bytes_eq
get_push_kind k =
    if bytes_eq k (codes "invalidate")
    then invalidate
    else if bytes_eq k (codes "message")
    then message
    else if bytes_eq k (codes "pmessage")
    then pmessage
    else if bytes_eq k (codes "smessage")
    then smessage
    else if bytes_eq k (codes "unsubscribe")
    then unsubscribe
    else if bytes_eq k (codes "punsubscribe")
    then punsubscribe
    else if bytes_eq k (codes "sunsubscribe")
    then sunsubscribe
    else if bytes_eq k (codes "subscribe")
    then subscribe
    else if bytes_eq k (codes "psubscribe")
    then psubscribe
    else if bytes_eq k (codes "ssubscribe")
    then ssubscribe
    else other k

-- The `for` loop that takes `n` pairs from an iterator, and what it leaves.
unfoldable pub take_pairs : ℕ → Values → Pairs × Values
take_pairs zero vs = (end_pairs, vs)
take_pairs (suc n) (item k (item v vs)) = let (ps, rest) = take_pairs n vs in (pair k v ps, rest)
take_pairs (suc n) _ = (end_pairs, end)

-- `Value::Attribute`, with the `unwrap` of the item behind the pairs.
unfoldable pub make_attribute : Pairs → Values → Bytes → Parsed Value
make_attribute ps end rest = panicked
make_attribute ps (item v vs) rest = done (attribute v ps) rest

unfoldable pub make_push : Values → Bytes → Parsed Value
unfolding get_push_kind
make_push (item (bulk_string kind) vs) rest =
    if is_utf8 kind then done (push (get_push_kind kind) vs) rest else failed "invalid utf-8"
make_push (item (simple_string kind) vs) rest = done (push (get_push_kind kind) vs) rest
make_push _ rest = failed "parse error when decoding push"

unfoldable pub verbatim_format : Bytes → VerbatimFormat
unfolding bytes_eq
verbatim_format f =
    if bytes_eq f (codes "txt")
    then text
    else if bytes_eq f (codes "mkd")
    then markdown
    else unknown f

-- `line.split_once(':')` and what is made of it.
unfoldable pub make_verbatim : Bytes × Option Bytes → Bytes → Parsed Value
unfolding verbatim_format
make_verbatim (format, none) rest = failed "parse error when decoding verbatim string"
make_verbatim (format, some body) rest = done (verbatim_string (verbatim_format format) body) rest

unfoldable pub make_simple : Bytes → Value
unfolding bytes_eq
make_simple s = if bytes_eq s (codes "OK") then okay else simple_string s

unfoldable pub make_boolean : Bytes → Bytes → Parsed Value
unfolding bytes_eq
make_boolean s rest =
    if bytes_eq s (codes "t")
    then done (boolean true) rest
    else if bytes_eq s (codes "f")
    then done (boolean false) rest
    else failed "Expected boolean, got garbage"

-- A number that a text was read as, if it was.
unfoldable pub expect {ℓ} : {A : Type ℓ} → String → Option A → Bytes → Parsed A
expect reason none rest = failed reason
expect reason (some a) rest = done a rest

-- `parse_f64` is `str::parse::<f64>`, to the bits of the result: there are no floats here.
module _ (c : Combine) (parse_f64 : Bytes → Option ℕ) where
  -- A line without its CR LF, which must be UTF-8.
  unfoldable pub line : Bytes → Parsed Bytes
  line s = c.line s >>= λ text rest. if is_utf8 text then done text rest else failed "invalid utf-8"

  unfoldable pub integer : Bytes → Parsed ℤ
  unfolding line expect
  integer s =
      line s >>= λ text rest. expect "Expected integer, got garbage" (parse_i64 (trim text)) rest

  unfoldable pub take_crlf : ℕ → Bytes → Parsed Bytes
  take_crlf n s = c.take n s >>= λ bytes rest. c.crlf rest >>= λ _ rest'. done bytes rest'

  unfoldable pub bulk : ℤ → Bytes → Parsed Value
  unfolding take_crlf
  bulk (negsuc n) s = done nil s
  bulk (pos n) s = take_crlf n s >>= λ bytes rest. done (bulk_string bytes) rest

  unfoldable pub blob : Bytes → Parsed Bytes
  unfolding integer take_crlf
  blob s = integer s >>= λ size rest.
      take_crlf (as_unsigned usize_values size) rest >>= λ bytes rest'.
      done (from_utf8_lossy bytes) rest'

  -- `item` is the parser of the items: `value(Some(count + 1))`.
  module _ (item_parser : Bytes → Parsed Value) where
    unfoldable pub items : ℤ → (Values → Value) → Bytes → Parsed Value
    items (negsuc n) make s = done nil s
    items (pos n) make s = c.count n item_parser s >>= λ vs rest. done (make vs) rest

    unfoldable pub map_items : ℤ → Bytes → Parsed Value
    unfolding take_pairs
    map_items n s =
        let doubled = as_unsigned usize_values n * 2 in
        if leb doubled usize_max
        then (c.count doubled item_parser s >>= λ vs rest.
            done (map (take_pairs (as_unsigned usize_values n) vs).0) rest)
        else failed "Attribute key-value length is too large"

    unfoldable pub attribute_items : ℤ → Bytes → Parsed Value
    unfolding take_pairs make_attribute
    attribute_items n s =
        let doubled = as_unsigned usize_values n * 2 in
        if leb doubled usize_max
        then (c.count (doubled + 1) item_parser s >>= λ vs rest.
            let (ps, left) = take_pairs (as_unsigned usize_values n) vs in
            make_attribute ps left rest)
        else failed "Attribute key-value length is too large"

    unfoldable pub push_items : ℤ → Bytes → Parsed Value
    unfolding make_push
    push_items (negsuc n) s = done (push (other []) end) s
    push_items (pos zero) s = done (push (other []) end) s
    push_items (pos (suc n)) s = c.count (suc n) item_parser s >>= λ vs rest. make_push vs rest

    -- `combine::dispatch!` on the first byte.
    unfoldable pub dispatch : ℕ → Bytes → Parsed Value
    dispatch b s =
        if b == b'+'
        then (line s >>= λ text rest. done (make_simple text) rest)
        else if b == b':'
        then (integer s >>= λ n rest. done (int n) rest)
        else if b == b'$'
        then (integer s >>= bulk)
        else if b == b'*'
        then (integer s >>= λ n rest. items n array rest)
        else if b == b'%'
        then (integer s >>= map_items)
        else if b == b'|'
        then (integer s >>= attribute_items)
        else if b == b'~'
        then (integer s >>= λ n rest. items n set rest)
        else if b == b'-'
        then (line s >>= λ text rest. done (server_error (err_parser text)) rest)
        else if b == b'_'
        then (line s >>= λ text rest. done nil rest)
        else if b == b','
        then (line s >>= λ text rest.
            expect "invalid float literal" (parse_f64 (trim text)) rest >>= λ d rest'.
            done (double d) rest')
        else if b == b'#'
        then (line s >>= make_boolean)
        else if b == b'!'
        then (blob s >>= λ text rest. done (server_error (err_parser text)) rest)
        else if b == b'='
        then (blob s >>= λ text rest. make_verbatim (split_first b':' text) rest)
        else if b == b'('
        then (line s >>= λ text rest. done (big_number text) rest)
        else if b == b'>'
        then (integer s >>= push_items)
        else failed "unexpected token"

  -- `value(count)`, by the levels that are left: `count` is `max_recurse_depth + 1 - levels`.
  unfoldable pub value : ℕ → Bytes → Parsed Value
  value zero s = c.any s >>= λ b rest. failed "Maximum recursion depth exceeded"
  value (suc levels) s = c.any s >>= λ b rest. dispatch (value levels) b rest

  -- `value(None)`, as `Parser::parse_value` and `parse_redis_value` run it.
  unfoldable pub parse_redis_value : Bytes → Parsed Value
  parse_redis_value s = value max_recurse_depth s

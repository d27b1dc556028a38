-- ===== src/Errors/Redis.antt =====
-- redis/src/errors/redis_error.rs: the library's error type and its classification.
use redis_rs.Base.{
  ℕ, Bool, true, false, String, Option, none, some, List, [], ◌∷◌, Bytes, ◌||◌, if◌then◌else◌, ◌==◌,
  parse_unsigned,
}
use redis_rs.Errors.Server.{
  ServerErrorKind, exec_abort, moved, ask, try_again, cluster_down, RetryMethod, reconnect,
  no_retry, retry_immediately, wait_and_retry, reconnect_from_initial_connections, ask_redirect,
  moved_redirect, refresh_slots_and_retry, kind_retry_method, ServerError,
}
use redis_rs.Errors.Server

pub data ErrorKind : Type 0 where
  parse authentication_failed unexpected_return_type invalid_client_config io client extension
        master_name_not_found_by_sentinel no_valid_replicas_found_by_sentinel empty_sentinel_list
        cluster_connection_not_found resp3_not_supported :
      ErrorKind
  server : ServerErrorKind → ErrorKind

-- `std::io::ErrorKind`: the kinds that the code tells apart.
pub data IoErrorKind : Type 0 where
  broken_pipe connection_reset connection_refused connection_aborted unexpected_eof not_connected
        not_found permission_denied unsupported timed_out would_block other :
      IoErrorKind

-- `ErrorRepr`. An `Internal` error holds a boxed error: the kind that `downcast_ref` finds in it, if
-- it is an `io::Error`.
pub data RedisError : Type 0 where
  general : ErrorKind → String → Option Bytes → RedisError
  internal : ErrorKind → Option IoErrorKind → RedisError
  parsing : Bytes → RedisError
  server : ServerError → RedisError
  pipeline : List (ℕ × ServerError) → RedisError
  transaction_aborted : List (ℕ × ServerError) → RedisError

kind_or_extension : Option ServerErrorKind → ErrorKind
kind_or_extension none = extension
kind_or_extension (some k) = server k

-- `RedisError::kind`.
unfoldable pub kind : RedisError → ErrorKind
unfolding kind_or_extension Server.kind
kind (general k desc detail) = k
kind (internal k err) = k
kind (parsing desc) = parse
kind (server err) = kind_or_extension (Server.kind err)
kind (pipeline []) = extension
kind (pipeline ((i, err) ∷ items)) = kind_or_extension (Server.kind err)
kind (transaction_aborted items) = server exec_abort

-- `RedisError::detail`.
unfoldable pub detail : RedisError → Option Bytes
unfolding Server.details
detail (general k desc d) = d
detail (parsing desc) = some desc
detail (server err) = Server.details err
detail _ = none

-- `RedisError::as_io_error`, up to the kind of that error.
unfoldable pub as_io_error : RedisError → Option IoErrorKind
as_io_error (internal k err) = err
as_io_error _ = none

unfoldable pub is_io_error : RedisError → Bool
unfolding kind
is_io_error e = elim (kind e) [ io ↦ true | _ ↦ false ]

unfoldable pub is_cluster_error : RedisError → Bool
unfolding kind
is_cluster_error e = elim (kind e) [
  | server k ↦ elim k [
    | moved ↦ true
    | ask ↦ true
    | try_again ↦ true
    | cluster_down ↦ true
    | _ ↦ false
  ]
  | _ ↦ false
]

dropped_kind : Option IoErrorKind → Bool
dropped_kind (some broken_pipe) = true
dropped_kind (some connection_reset) = true
dropped_kind (some connection_refused) = true
dropped_kind (some connection_aborted) = true
dropped_kind (some unexpected_eof) = true
dropped_kind (some not_connected) = true
dropped_kind (some not_found) = true
dropped_kind _ = false

-- `RedisError::is_connection_dropped`.
unfoldable pub is_connection_dropped : RedisError → Bool
unfolding dropped_kind
is_connection_dropped (general k desc d) = elim k [ io ↦ true | _ ↦ false ]
is_connection_dropped (internal k err) = dropped_kind err
is_connection_dropped _ = false

-- `RedisError::is_timeout`.
unfoldable pub is_timeout : RedisError → Bool
unfolding as_io_error
is_timeout e = elim (as_io_error e) [
  | none ↦ false
  | some k ↦ elim k [ timed_out ↦ true | would_block ↦ true | _ ↦ false ]
]

io_retry_method : Option IoErrorKind → RetryMethod
io_retry_method none = no_retry
io_retry_method (some permission_denied) = no_retry
io_retry_method (some unsupported) = no_retry
io_retry_method (some _) = retry_immediately

-- The `match` of `RedisError::retry_method` on the kind.
retry_method_of : ErrorKind → RedisError → RetryMethod
retry_method_of (server k) e = kind_retry_method k
retry_method_of master_name_not_found_by_sentinel e = wait_and_retry
retry_method_of no_valid_replicas_found_by_sentinel e = wait_and_retry
retry_method_of extension e = no_retry
retry_method_of unexpected_return_type e = no_retry
retry_method_of invalid_client_config e = no_retry
retry_method_of client e = no_retry
retry_method_of empty_sentinel_list e = no_retry
retry_method_of resp3_not_supported e = no_retry
retry_method_of parse e = reconnect
retry_method_of authentication_failed e = reconnect
retry_method_of cluster_connection_not_found e = reconnect_from_initial_connections
retry_method_of io e =
    if is_connection_dropped e then reconnect else io_retry_method (as_io_error e)

-- `RedisError::retry_method`.
unfoldable pub retry_method : RedisError → RetryMethod
unfolding kind kind_retry_method is_connection_dropped as_io_error io_retry_method retry_method_of
retry_method e = retry_method_of (kind e) e

-- `RedisError::is_unrecoverable_error`.
unfoldable pub is_unrecoverable_error : RedisError → Bool
unfolding retry_method
is_unrecoverable_error e = elim (retry_method e) [
  | reconnect ↦ true
  | reconnect_from_initial_connections ↦ true
  | no_retry ↦ false
  | retry_immediately ↦ false
  | wait_and_retry ↦ false
  | ask_redirect ↦ false
  | moved_redirect ↦ false
  | refresh_slots_and_retry ↦ false
]

unfoldable pub is_whitespace : ℕ → Bool
is_whitespace c = c == 0x20 || (c == 0x09 || (c == 0x0a || (c == 0x0c || c == 0x0d)))

-- A word that ends here, in front of those behind it; an empty one is dropped.
unfoldable pub push_word : Bytes → List Bytes → List Bytes
push_word [] words = words
push_word (c ∷ cs) words = (c ∷ cs) ∷ words

-- One step of the splitting, from the right: `c` in front of the word that begins there, and the words
-- behind it.
unfoldable pub split_step : ℕ → Bytes × List Bytes → Bytes × List Bytes
unfolding push_word is_whitespace
split_step c (word, words) =
    if is_whitespace c then ([], push_word word words) else (c ∷ word, words)

unfoldable pub split_words : Bytes → Bytes × List Bytes
unfolding split_step
split_words [] = ([], [])
split_words (c ∷ cs) = split_step c (split_words cs)

-- `str::split_ascii_whitespace`.
unfoldable pub split_ascii_whitespace : Bytes → List Bytes
unfolding split_words
split_ascii_whitespace s = let (word, words) = split_words s in push_word word words

-- The largest `u16`.
abbrev pub u16_max : ℕ
u16_max = 65535

-- `let slot_id = iter.next()?.parse().ok()?; let addr = iter.next()?;`
unfoldable pub redirect_words : List Bytes → Option (Bytes × ℕ)
redirect_words (slot ∷ addr ∷ rest) = elim (parse_unsigned u16_max slot) [
  | none ↦ none
  | some id ↦ some (addr, id)
]
redirect_words _ = none

is_redirect_kind : ErrorKind → Bool
is_redirect_kind (server ask) = true
is_redirect_kind (server moved) = true
is_redirect_kind _ = false

redirect_detail : Option Bytes → Option (Bytes × ℕ)
redirect_detail none = none
redirect_detail (some d) = redirect_words (split_ascii_whitespace d)

-- `RedisError::redirect_node`: the address and the slot.
unfoldable pub redirect_node : RedisError → Option (Bytes × ℕ)
unfolding kind detail split_ascii_whitespace redirect_words is_redirect_kind redirect_detail
redirect_node e = if is_redirect_kind (kind e) then redirect_detail (detail e) else none

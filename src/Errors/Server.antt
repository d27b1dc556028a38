-- ===== src/Errors/Server.antt =====
-- redis/src/errors/server_error.rs: the errors that a server sends, and what to do about each;
-- and `err_parser` of redis/src/parser.rs, which reads them.
use redis_rs.Base.{
  ℕ, ap, ◌∙◌, ◌≡◌, refl, Bool, true, false, not, Option, none, some, [], ◌∷◌, ◌++◌, Bytes, codes,
  bytes_eq, if◌then◌else◌, ◌==◌,
}

pub data ServerErrorKind : Type 0 where
  response_error exec_abort busy_loading no_script moved ask try_again cluster_down cross_slot
        master_down read_only not_busy no_sub no_perm :
      ServerErrorKind

pub data RetryMethod : Type 0 where
  reconnect no_retry retry_immediately wait_and_retry ask_redirect moved_redirect
        reconnect_from_initial_connections refresh_slots_and_retry :
      RetryMethod

unfoldable pub kind_code : ServerErrorKind → Bytes
kind_code response_error = codes "ERR"
kind_code exec_abort = codes "EXECABORT"
kind_code busy_loading = codes "LOADING"
kind_code no_script = codes "NOSCRIPT"
kind_code moved = codes "MOVED"
kind_code ask = codes "ASK"
kind_code try_again = codes "TRYAGAIN"
kind_code cluster_down = codes "CLUSTERDOWN"
kind_code cross_slot = codes "CROSSSLOT"
kind_code master_down = codes "MASTERDOWN"
kind_code read_only = codes "READONLY"
kind_code not_busy = codes "NOTBUSY"
kind_code no_sub = codes "NOSUB"
kind_code no_perm = codes "NOPERM"

-- `ServerErrorKind::retry_method`.
unfoldable pub kind_retry_method : ServerErrorKind → RetryMethod
kind_retry_method moved = moved_redirect
kind_retry_method ask = ask_redirect
kind_retry_method try_again = wait_and_retry
kind_retry_method master_down = wait_and_retry
kind_retry_method cluster_down = wait_and_retry
kind_retry_method busy_loading = wait_and_retry
kind_retry_method read_only = refresh_slots_and_retry
kind_retry_method response_error = no_retry
kind_retry_method exec_abort = no_retry
kind_retry_method no_script = no_retry
kind_retry_method cross_slot = no_retry
kind_retry_method not_busy = no_retry
kind_retry_method no_sub = no_retry
kind_retry_method no_perm = no_retry

-- `ServerError` wraps `Repr`; this is both.
pub data ServerError : Type 0 where
  extension : Bytes → Option Bytes → ServerError
  known : ServerErrorKind → Option Bytes → ServerError

unfoldable pub kind : ServerError → Option ServerErrorKind
kind (extension c d) = none
kind (known k d) = some k

unfoldable pub code : ServerError → Bytes
unfolding kind_code
code (extension c d) = c
code (known k d) = kind_code k

unfoldable pub details : ServerError → Option Bytes
details (extension c d) = d
details (known k d) = d

abbrev pub is_no_retry : RetryMethod → Bool
is_no_retry no_retry = true
is_no_retry _ = false

-- `self.kind().map(|kind| kind.retry_method()).unwrap_or(RetryMethod::NoRetry)`
retry_or_none : Option ServerErrorKind → RetryMethod
retry_or_none none = no_retry
retry_or_none (some k) = kind_retry_method k

unfoldable pub requires_action : ServerError → Bool
unfolding kind kind_retry_method retry_or_none
requires_action e = not (is_no_retry (retry_or_none (kind e)))

-- `line.splitn(2, ' ')`: what stands before the first space, and what follows it, if there is one.
unfoldable pub split_first : ℕ → Bytes → Bytes × Option Bytes
split_first sep [] = ([], none)
split_first sep (c ∷ cs) =
    let (before, after) = split_first sep cs in
    if c == sep then ([], some cs) else (c ∷ before, after)

-- The `match` of `err_parser` on the first piece.
unfoldable pub kind_of_code : Bytes → Option ServerErrorKind
unfolding bytes_eq
kind_of_code c =
    if bytes_eq c (codes "ERR")
    then some response_error
    else if bytes_eq c (codes "EXECABORT")
    then some exec_abort
    else if bytes_eq c (codes "LOADING")
    then some busy_loading
    else if bytes_eq c (codes "NOSCRIPT")
    then some no_script
    else if bytes_eq c (codes "MOVED")
    then some moved
    else if bytes_eq c (codes "ASK")
    then some ask
    else if bytes_eq c (codes "TRYAGAIN")
    then some try_again
    else if bytes_eq c (codes "CLUSTERDOWN")
    then some cluster_down
    else if bytes_eq c (codes "CROSSSLOT")
    then some cross_slot
    else if bytes_eq c (codes "MASTERDOWN")
    then some master_down
    else if bytes_eq c (codes "READONLY")
    then some read_only
    else if bytes_eq c (codes "NOTBUSY")
    then some not_busy
    else if bytes_eq c (codes "NOSUB")
    then some no_sub
    else if bytes_eq c (codes "NOPERM")
    then some no_perm
    else none

unfoldable pub server_error : Option ServerErrorKind → Bytes → Option Bytes → ServerError
server_error none head detail = extension head detail
server_error (some k) head detail = known k detail

unfoldable pub err_parser : Bytes → ServerError
unfolding split_first kind_of_code server_error
err_parser line =
    let (head, detail) = split_first b' ' line in server_error (kind_of_code head) head detail

pub kind_of_code-kind_code : (k : ServerErrorKind) → kind_of_code (kind_code k) ≡ some k
unfolding kind_of_code kind_code
kind_of_code-kind_code response_error = refl
kind_of_code-kind_code _ = refl

split_first-kind_code :
    (k : ServerErrorKind) (d : Bytes)
    → (split_first b' ' (kind_code k) ≡ (kind_code k, none))
      × (split_first b' ' (kind_code k ++ b' ' ∷ d) ≡ (kind_code k, some d))
unfolding split_first kind_code
split_first-kind_code response_error d = (refl, refl)
split_first-kind_code _ d = (refl, refl)

-- The line that a server sends for an error: its code, and a space and the detail if there is one.
unfoldable pub error_line : ServerError → Bytes
unfolding code details
error_line e = elim (details e) [ none ↦ code e | some d ↦ code e ++ b' ' ∷ d ]

-- The line of a known error is read as that error, its detail kept whole (spaces included).
pub err_parser-error_line :
    (k : ServerErrorKind) (detail : Option Bytes)
    → err_parser (error_line (known k detail)) ≡ known k detail
unfolding error_line err_parser
err_parser-error_line k none =
    ap (λ p. server_error (kind_of_code p.0) p.0 p.1) (split_first-kind_code k []).0
    ∙ ap (λ o. server_error o (kind_code k) none) (kind_of_code-kind_code k)
err_parser-error_line k (some d) =
    ap (λ p. server_error (kind_of_code p.0) p.0 p.1) (split_first-kind_code k d).1
    ∙ ap (λ o. server_error o (kind_code k) (some d)) (kind_of_code-kind_code k)

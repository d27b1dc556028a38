-- ===== src/Cluster/Request/Settled.antt =====
-- That an attempt either answers its caller or is tried again, and when.
use redis_rs.Base.{
  ℕ, suc, ◌<◌, ◌≤◌, ◌≡◌, refl, ◌∙◌, ◌⊎◌, inl, inr, true, Option, none, some, List, [], ◌∷◌, ltb,
  ltb→lt, lt→ltb, Bool-cases, if◌then◌else◌, arith,
}
use redis_rs.Errors.Redis.{RedisError, server, retry_method}
use redis_rs.Value.Defs.{Value, server_error, nil, Outcome, ok}
use redis_rs.Value.Methods.{is_error_that_requires_action, extract_error}
use redis_rs.Cluster.Retry.{RetryParams, wait_time_for_retry}
use redis_rs.Cluster.Request.{
  Result, success, failure, single, multiple, OperationTarget, CmdArg, command, pipeline, reconnect,
  PollFlushAction, PendingRequest, Retry, immediately, move_to_pending, after_sleep, Chosen, send,
  error_of_value, error_of_values, error_of_response, error_of, unwrap_err, Plan, give_up, requeue,
  requeue_reset, follow_ask, follow_moved, wait, wait_reset, plan, u32_succ, retry_as,
  retry_or_send, choose_retry, choose_by_error, choose_for, choose_response,
}

module _ {C : Type 0} where
  -- The request that is tried again.
  unfoldable pub request_of : Retry C → PendingRequest C
  request_of (immediately request) = request
  request_of (move_to_pending request) = request
  request_of (after_sleep request sleep) = request

module _ {C : Type 0} (params : RetryParams) (request : PendingRequest C) where
  -- The caller is answered, once, and there is no retry.
  abbrev pub IsAnswered : Chosen C → Type 0
  IsAnswered c = (c.retry ≡ none) × ((r : Result) × (c.sent ≡ send request.sender r))

  -- Nothing is sent, retries remain, and the request is tried again for the same caller.
  abbrev pub IsRetried : Chosen C → Type 0
  IsRetried c =
      (c.sent ≡ [])
      × (request.retry < params.number_of_retries)
      × ((r : Retry C) × (c.retry ≡ some r)
          × ((request_of r).sender ≡ request.sender)
          × ((request_of r).retry ≡ suc request.retry))

  abbrev pub IsSettled : Chosen C → Type 0
  IsSettled c = IsAnswered c ⊎ IsRetried c

module _ {C : Type 0} where
  pub retry_as-request :
      (p : Plan) (e : RedisError) (sleep : ℕ) (request : PendingRequest C)
      → (retry_as p e sleep request ≡ none)
        ⊎ ((r : Retry C) × (retry_as p e sleep request ≡ some r)
            × ((request_of r).sender ≡ request.sender)
            × ((request_of r).retry ≡ request.retry))
  unfolding retry_as request_of
  retry_as-request give_up e sleep request = inl refl
  retry_as-request requeue e sleep request = inr (_, refl, refl, refl)
  retry_as-request requeue_reset e sleep request = inr (_, refl, refl, refl)
  retry_as-request follow_ask e sleep request = inr (_, refl, refl, refl)
  retry_as-request follow_moved e sleep request = inr (_, refl, refl, refl)
  retry_as-request wait e sleep request = inr (_, refl, refl, refl)
  retry_as-request wait_reset e sleep request = inr (_, refl, refl, refl)

unwrap_err-value :
    (v : Value)
    → is_error_that_requires_action v ≡ true
    → (e : RedisError) × (unwrap_err (extract_error v) ≡ ok e)
unfolding is_error_that_requires_action extract_error unwrap_err
unwrap_err-value (server_error e) h = (server e, refl)
unwrap_err-value _ h = ground arith

error_of_value-ok : (v : Value) → (e : Option RedisError) × (error_of_value v ≡ ok e)
unfolding error_of_value
error_of_value-ok v = elim (Bool-cases (is_error_that_requires_action v)) [
  | inl bad ↦ (some (unwrap_err-value v bad).0, rw (bad, (unwrap_err-value v bad).1) refl)
  | inr good ↦ (none, rw good refl)
]

error_of_values-ok : (vs : List Value) → (e : Option RedisError) × (error_of_values vs ≡ ok e)
unfolding error_of_values
error_of_values-ok [] = (none, refl)
error_of_values-ok (v ∷ vs) = elim (Bool-cases (is_error_that_requires_action v)) [
  | inl bad ↦ (some (unwrap_err-value v bad).0, rw (bad, (unwrap_err-value v bad).1) refl)
  | inr good ↦ ((error_of_values-ok vs).0, rw good (error_of_values-ok vs).1)
]

-- The error that an attempt ended with can always be taken out of its result.
error_of-ok : (r : Result) → (e : Option RedisError) × (error_of r ≡ ok e)
unfolding error_of error_of_response
error_of-ok (success (single v)) = error_of_value-ok v
error_of-ok (success (multiple vs)) = error_of_values-ok vs
error_of-ok (failure e) = (some e, refl)

module _ {C : Type 0} (random_range : ℕ → ℕ → ℕ) (params : RetryParams) (request : PendingRequest C)
    (sleep : ℕ) (u32 : params.number_of_retries ≤ 4294967295)
    (waits : wait_time_for_retry random_range params (u32_succ request.retry) ≡ ok sleep) where
  abbrev Settles : Outcome (Chosen C) → Type 0
  Settles r = (c : Chosen C) × (r ≡ ok c) × IsSettled params request c

  abbrev next_request : PendingRequest C
  next_request = record request { retry = u32_succ request.retry }

  u32_succ-retry :
      request.retry < params.number_of_retries → u32_succ request.retry ≡ suc request.retry
  unfolding u32_succ
  u32_succ-retry h = rw (lt→ltb request.retry 4294967295 (omega arith)) refl

  retry_or_send-IsSettled :
      (p : Plan) (action : PollFlushAction) (e : RedisError)
      → IsSettled params request (
          retry_or_send
            (if ltb request.retry params.number_of_retries
              then retry_as p e sleep next_request
              else none)
            action
            request.sender
            e)
  unfolding retry_or_send
  retry_or_send-IsSettled p action e =
      elim (Bool-cases (ltb request.retry params.number_of_retries)) [
        | inl remaining ↦ rw remaining (elim (retry_as-request p e sleep next_request) [
          | inl given_up ↦ rw given_up (inl (refl, (failure e, refl)))
          | inr (r, goes, same, counted) ↦ rw goes (
              inr (
                refl,
                ltb→lt _ _ remaining,
                (r, refl, same, counted ∙ u32_succ-retry (ltb→lt _ _ remaining)),
              ))
        ])
        | inr spent ↦ rw spent (inl (refl, (failure e, refl)))
      ]

  choose_retry-Settles :
      (target : OperationTarget) (e : RedisError)
      → Settles (choose_retry random_range params target e request)
  unfolding choose_retry
  choose_retry-Settles target e = rw waits (
    _,
    refl,
    retry_or_send-IsSettled (plan target (retry_method e)).0 (plan target (retry_method e)).1 e,
  )

  choose_by_error-Settles :
      (target : OperationTarget) (result : Result) (e : Option RedisError)
      → Settles (choose_by_error random_range params target result request e)
  unfolding choose_by_error
  choose_by_error-Settles target result none = (_, refl, inl (refl, (result, refl)))
  choose_by_error-Settles target result (some e) = choose_retry-Settles target e

  choose_for-Settles :
      (cmd : CmdArg C) (target : OperationTarget) (result : Result)
      → Settles (choose_for random_range params cmd target result request)
  unfolding choose_for
  choose_for-Settles (reconnect addr) target result =
      (_, refl, inl (refl, (success (single nil), refl)))
  choose_for-Settles (command cmd routing) target result =
      rw (error_of-ok result).1 (choose_by_error-Settles target result (error_of-ok result).0)
  choose_for-Settles (pipeline cmds atomic offset count route) target result =
      rw (error_of-ok result).1 (choose_by_error-Settles target result (error_of-ok result).0)

  -- An attempt that has ended, whatever its result, never panics if the wait does not overflow. Either
  -- its caller is answered once and there is no retry, or nothing is sent, retries remain, and the
  -- request is tried again for the same caller, with one more retry counted. The number of retries is
  -- a `u32`.
  pub choose_response-IsSettled :
      (target : OperationTarget) (result : Result)
      → (c : Chosen C) × (choose_response random_range params target result request ≡ ok c)
        × IsSettled params request c
  unfolding choose_response
  choose_response-IsSettled target result = choose_for-Settles request.cmd target result

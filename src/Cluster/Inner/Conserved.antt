-- ===== src/Cluster/Inner/Conserved.antt =====
-- That what a request has ended with answers its caller or leaves it waiting.
use redis_rs.Base.{
  ℕ, ◌+◌, ◌≡◌, refl, inl, inr, Bool, true, false, Option, none, some, [], ◌∷◌, if◌then◌else◌, arith,
  ltb, subst,
}
use redis_rs.Errors.Redis.{RedisError, retry_method}
use redis_rs.Value.Defs.{nil, Outcome, ok, err, panicked, ◌>>=◌}
use redis_rs.Cluster.Retry.{RetryParams, wait_time_for_retry}
use redis_rs.Cluster.Request.{
  CmdArg, command, pipeline, reconnect, Result, failure, OperationTarget, PollFlushAction, nothing,
  reconnect_to, PendingRequest, Chosen, send, choose_response, choose_for, choose_by_error,
  choose_retry, retry_or_send, retry_as, plan, Plan, chosen_after, success, single, error_of,
  u32_succ,
}
use redis_rs.Cluster.Request.Settled.{retry_as-request}
use redis_rs.Cluster.Inner.Counts.{of_sender, of_retry, answers, answers-send}

-- A property of what a computation returns, if it returns.
abbrev pub If {ℓ κ} : {A : Type ℓ} → (A → Type κ) → Outcome A → Type κ
If P (ok a) = P a
If P (err e) = Unit
If P panicked = Unit

pub If-bind {ℓ κ μ} :
    {A : Type ℓ} {B : Type κ} (P : B → Type μ) (m : Outcome A) (f : A → Outcome B)
    → ((a : A) → m ≡ ok a → If P (f a))
    → If P (m >>= f)
If-bind P (ok a) f h = h a refl
If-bind P (err e) f h = tt
If-bind P panicked f h = tt

pub If-then {ℓ κ μ ν} :
    {A : Type ℓ} {B : Type κ} (Q : A → Type μ) (P : B → Type ν) (m : Outcome A) (f : A → Outcome B)
    → If Q m
    → ((a : A) → Q a → If P (f a))
    → If P (m >>= f)
If-then Q P (ok a) f q h = h a q
If-then Q P (err e) f q h = tt
If-then Q P panicked f q h = tt

pub If-map {ℓ μ ν} :
    {A : Type ℓ} (Q : A → Type μ) (P : A → Type ν) (m : Outcome A)
    → ((a : A) → Q a → P a)
    → If Q m
    → If P m
If-map Q P (ok a) h q = h a q
If-map Q P (err e) h q = tt
If-map Q P panicked h q = tt

pub If-ok {ℓ κ} : {A : Type ℓ} (P : A → Type κ) (m : Outcome A) (a : A) → m ≡ ok a → If P m → P a
If-ok P m a eq h = subst (If P) eq h

module _ {C : Type 0} (c : ℕ) where
  -- What a request has ended with accounts for its caller, which is answered or waits on.
  abbrev pub Accounts : PendingRequest C → Chosen C → Type 0
  Accounts request chosen =
      answers c chosen.sent + of_retry c chosen.retry ≡ of_sender c request.sender

  answered-Accounts :
      (request : PendingRequest C) (r : Result) (action : PollFlushAction)
      → Accounts request (record { retry = none; action = action; sent = send request.sender r })
  answered-Accounts request r action = omega (arith, answers-send c request.sender r)

  retry_or_send-Accounts :
      (remaining : Bool) (p : Plan) (action : PollFlushAction) (e : RedisError) (sleep n : ℕ)
      (request : PendingRequest C)
      → Accounts request (
          retry_or_send
            (if remaining then retry_as p e sleep (record request { retry = n }) else none)
            action
            request.sender
            e)
  unfolding retry_or_send
  retry_or_send-Accounts false p action e sleep n request =
      answered-Accounts request (failure e) action
  retry_or_send-Accounts true p action e sleep n request =
      elim (retry_as-request p e sleep (record request { retry = n })) [
        | inl stops ↦ rw stops (answered-Accounts request (failure e) action)
        | inr (r, goes, same, counted) ↦ rw (goes, same) (unfold answers in omega arith)
      ]

  module _ (random_range : ℕ → ℕ → ℕ) (params : RetryParams) (target : OperationTarget) where
    choose_retry-Accounts :
        (e : RedisError) (request : PendingRequest C)
        → If (Accounts request) (choose_retry random_range params target e request)
    unfolding choose_retry chosen_after
    choose_retry-Accounts e request =
        If-bind (Accounts request)
          (wait_time_for_retry random_range params (u32_succ request.retry))
          (λ sleep. ok (chosen_after random_range params target e request sleep))
          (λ sleep waits.
            retry_or_send-Accounts (ltb request.retry params.number_of_retries)
              (plan target (retry_method e)).0 (plan target (retry_method e)).1 e sleep
              (u32_succ request.retry) request)

    choose_by_error-Accounts :
        (result : Result) (request : PendingRequest C) (e : Option RedisError)
        → If (Accounts request) (choose_by_error random_range params target result request e)
    unfolding choose_by_error
    choose_by_error-Accounts result request none = answered-Accounts request result nothing
    choose_by_error-Accounts result request (some e) = choose_retry-Accounts e request

    choose_for-Accounts :
        (cmd : CmdArg C) (result : Result) (request : PendingRequest C)
        → If (Accounts request) (choose_for random_range params cmd target result request)
    unfolding choose_for
    choose_for-Accounts (reconnect addr) result request =
        answered-Accounts request (success (single nil)) (reconnect_to (addr ∷ []))
    choose_for-Accounts (command cmd routing) result request =
        If-bind (Accounts request) (error_of result)
          (choose_by_error random_range params target result request)
          (λ e found. choose_by_error-Accounts result request e)
    choose_for-Accounts (pipeline cmds atomic offset count route) result request =
        If-bind (Accounts request) (error_of result)
          (choose_by_error random_range params target result request)
          (λ e found. choose_by_error-Accounts result request e)

    pub choose_response-Accounts :
        (result : Result) (request : PendingRequest C)
        → If (Accounts request) (choose_response random_range params target result request)
    unfolding choose_response
    choose_response-Accounts result request = choose_for-Accounts request.cmd result request

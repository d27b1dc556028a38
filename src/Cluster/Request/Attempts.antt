-- ===== src/Cluster/Request/Attempts.antt =====
-- That a request is answered after boundedly many attempts.
use redis_rs.Base.{
  ℕ, suc, ◌-◌, ◌<◌, ◌≤◌, ◌≡◌, refl, inl, inr, Option, none, some, List, [], ◌∷◌, ◌++◌, length,
  lt→ltb, arith,
}
use redis_rs.Value.Defs.{Outcome, ok, ◌>>=◌}
use redis_rs.Cluster.Retry.{RetryParams, wait_time_for_retry}
use redis_rs.Cluster.Request.{
  Result, OperationTarget, PendingRequest, Retry, Chosen, send, u32_succ, choose_response,
}
use redis_rs.Cluster.Request.Settled.{request_of, IsSettled, choose_response-IsSettled}

module _ {C : Type 0} (random_range : ℕ → ℕ → ℕ) (params : RetryParams) where
  -- What follows one attempt, given what the later ones do.
  abbrev proceed :
      Chosen C
      → (PendingRequest C → Outcome (Option (PendingRequest C) × List (ℕ × Result)))
      → Option (Retry C)
      → Outcome (Option (PendingRequest C) × List (ℕ × Result))
  proceed chosen later none = ok (none, chosen.sent)
  proceed chosen later (some r) = do rest ← later (request_of r); ok (rest.0, chosen.sent ++ rest.1)

  -- The attempts at a request that end in the given ways: the request, if it is to be tried again, and
  -- the answers that are sent.
  unfoldable pub attempts :
      List (OperationTarget × Result)
      → PendingRequest C
      → Outcome (Option (PendingRequest C) × List (ℕ × Result))
  unfolding choose_response request_of
  attempts [] request = ok (some request, [])
  attempts ((target, result) ∷ ends) request = do
    chosen ← choose_response random_range params target result request
    proceed chosen (attempts ends) chosen.retry

  module _ (u32 : params.number_of_retries < 4294967295)
      (waits : (k : ℕ)
        → k ≤ suc params.number_of_retries
        → (sleep : ℕ) × (wait_time_for_retry random_range params k ≡ ok sleep)) where
    succ_of :
        (request : PendingRequest C)
        → request.retry ≤ params.number_of_retries
        → u32_succ request.retry ≡ suc request.retry
    unfolding u32_succ
    succ_of request h = rw (lt→ltb request.retry 4294967295 (omega arith)) refl

    settled :
        (request : PendingRequest C) (target : OperationTarget) (result : Result)
        → request.retry ≤ params.number_of_retries
        → (c : Chosen C) × (choose_response random_range params target result request ≡ ok c)
          × IsSettled params request c
    settled request target result h =
        choose_response-IsSettled random_range params request
          (waits (suc request.retry) (omega arith)).0 (omega arith)
          (rw (succ_of request h) (waits (suc request.retry) (omega arith)).1) target result

    -- More attempts than there are retries left, whatever they end in, answer the request, exactly
    -- once: if it has been retried at most as often as it may be, that number is below the largest
    -- `u32`, and no wait overflows.
    pub attempts-answered :
        (ends : List (OperationTarget × Result)) (request : PendingRequest C)
        → request.retry ≤ params.number_of_retries
        → params.number_of_retries - request.retry < length ends
        → (r : Result) × (attempts ends request ≡ ok (none, send request.sender r))
    unfolding attempts
    attempts-answered [] request h enough = absurd (omega arith)
    attempts-answered ((target, result) ∷ ends) request h enough =
        let step = settled request target result h in
        elim step.2 [
          | inl (stops, (r, answer)) ↦ (r, rw (step.1, stops, answer) refl)
          | inr (silent, remaining, (again, goes, same, counted)) ↦
              let later =
                attempts-answered ends (request_of again) (omega (arith, counted))
                  (omega (arith, counted)) in
              (later.0, rw (step.1, goes, silent, later.1, same) refl)
        ]

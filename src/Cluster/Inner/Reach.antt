-- ===== src/Cluster/Inner/Reach.antt =====
-- The states of a cluster connection that are reached while a caller listens.
use redis_rs.Base.{ℕ, ◌+◌, ◌≡◌, refl, ◌∙◌, Bool, false, none, some, List, [], ◌∷◌, arith}
use redis_rs.Errors.Redis.{RedisError}
use redis_rs.Value.Defs.{ok}
use redis_rs.Cluster.Retry.{RetryParams}
use redis_rs.Cluster.Request.{
  CmdArg, Result, OperationTarget, ResultExpectation, PollFlushAction, nothing,
}
use redis_rs.Cluster.Inner.Counts.{of_sender, of_requests-append, waiting, answers}
use redis_rs.Cluster.Inner.Conserved.{If-ok}
use redis_rs.Cluster.Inner.Steps.{
  total, total-dispatch_pending, total-poll_in_flight, total-send_refresh_error,
}
use redis_rs.Cluster.Inner.{
  ClusterConnInner, start_send, dispatch_pending, poll_in_flight, send_refresh_error,
}

-- How many requests of caller `c` have arrived.
abbrev pub arrived : ℕ → List ResultExpectation → ℕ
arrived c [] = 0
arrived c (sender ∷ senders) = of_sender c sender + arrived c senders

module _ {C : Type 0} (random_range : ℕ → ℕ → ℕ) (params : RetryParams) (c : ℕ) where
  abbrev pub initial : ClusterConnInner C
  initial = record {
    pending_requests = [];
    in_flight_requests = [];
    refresh_error = none;
    sent = [];
  }

  -- A step of the connection in which caller `c` listens: a refresh of the slots has failed, its error
  -- ends requests, pending requests are dispatched, or requests that are ready are polled.
  pub data Step : ClusterConnInner C → ClusterConnInner C → Type 0 where
    fail : (e : RedisError) (s : ClusterConnInner C) → Step s (record s { refresh_error = some e })
    end : (s s' : ClusterConnInner C) → send_refresh_error random_range params s ≡ ok s' → Step s s'
    dispatch :
        (is_closed : ℕ → Bool) (s : ClusterConnInner C)
        → is_closed c ≡ false
        → Step s (dispatch_pending is_closed s)
    poll :
        (is_closed : ℕ → Bool) (ready : List (ℕ × OperationTarget × Result))
        (action : PollFlushAction) (s s' : ClusterConnInner C)
        → is_closed c ≡ false
        → poll_in_flight random_range params is_closed ready nothing s ≡ ok (s', action)
        → Step s s'

  -- The states that are reached after requests for the given senders have arrived.
  pub data Reach : List ResultExpectation → ClusterConnInner C → Type 0 where
    start : Reach [] initial
    arrive :
        (senders : List ResultExpectation) (s : ClusterConnInner C) (cmd : CmdArg C)
        (sender : ResultExpectation)
        → Reach senders s
        → Reach (sender ∷ senders) (start_send cmd sender s)
    move :
        (senders : List ResultExpectation) (s s' : ClusterConnInner C)
        → Reach senders s
        → Step s s'
        → Reach senders s'

  step-total : (s s' : ClusterConnInner C) → Step s s' → total c s' ≡ total c s
  unfolding total waiting
  step-total x x' (fail e s) = refl
  step-total x x' (end s s' eq) =
      If-ok (λ r. total c r ≡ total c s) (send_refresh_error random_range params s) s' eq
        (total-send_refresh_error c random_range params s)
  step-total x x' (dispatch is_closed s listens) = total-dispatch_pending c is_closed listens s
  step-total x x' (poll is_closed ready action s s' listens eq) =
      If-ok (λ r. total c r.0 ≡ total c s)
        (poll_in_flight random_range params is_closed ready nothing s) (s', action) eq
        (total-poll_in_flight c random_range params is_closed ready nothing s listens)

  -- In every state that is reached while a caller listens, whatever the other callers do and whatever
  -- attempts end in, the requests of that caller that wait and the answers that it was sent are together
  -- as many as its requests that have arrived: none is lost, and none is answered twice.
  pub Reach-arrived :
      (senders : List ResultExpectation) (s : ClusterConnInner C)
      → Reach senders s
      → waiting c s + answers c s.sent ≡ arrived c senders
  unfolding total start_send waiting answers
  Reach-arrived xs x start = refl
  Reach-arrived xs x (arrive senders' s' cmd sender reach) = omega (
    arith,
    Reach-arrived senders' s' reach,
    of_requests-append c s'.pending_requests
        (record { retry = 0; sender = sender; cmd = cmd } ∷ []),
  )
  Reach-arrived xs x (move senders s' s reach step) =
      step-total s' s step ∙ Reach-arrived senders s' reach

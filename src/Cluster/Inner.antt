-- ===== src/Cluster/Inner.antt =====
-- The requests that a cluster connection is working on: `ClusterConnInner` and its methods of
-- redis/src/cluster_handling/async_connection/mod.rs, with `Request::poll` and `ResultExpectation` of
-- request.rs. `sent` records the answers. A future is not kept: what it ends in is an argument of the
-- step in which it is ready, and which callers have gone away is one too.
pub mod Counts
pub mod Conserved
pub mod Steps
pub mod Reach
use redis_rs.Base.{
  ℕ, zero, suc, Bool, true, false, ◌||◌, Option, none, some, List, [], ◌∷◌, ◌++◌, map,
  if◌then◌else◌,
}
use redis_rs.Errors.Redis.{RedisError}
use redis_rs.Value.Defs.{Outcome, ok, ◌>>=◌}
use redis_rs.Cluster.Retry.{RetryParams}
use redis_rs.Cluster.Request.{
  CmdArg, Result, failure, OperationTarget, not_found, ResultExpectation, external, internal,
  PollFlushAction, nothing, PendingRequest, Retry, immediately, move_to_pending, after_sleep,
  Chosen, choose_response,
}
use redis_rs.Cluster.Request.Action.{change_state}

-- `Request`: the future is that of an attempt, or a sleep.
pub record Request (C : Type 0) : Type 0 where
  pub request : Option (PendingRequest C)
  pub sleeping : Bool

-- `ClusterConnInner`, without its connections and its recovery.
pub record ClusterConnInner (C : Type 0) : Type 0 where
  pub pending_requests : List (PendingRequest C)
  pub in_flight_requests : List (Request C)
  pub refresh_error : Option RedisError
  pub sent : List (ℕ × Result)

-- `ResultExpectation::is_closed`.
unfoldable pub is_closed_sender : (ℕ → Bool) → ResultExpectation → Bool
is_closed_sender is_closed (external caller) = is_closed caller
is_closed_sender is_closed internal = false

module _ {C : Type 0} where
  unfoldable pub start_send : CmdArg C → ResultExpectation → ClusterConnInner C → ClusterConnInner C
  start_send cmd sender s = record s {
    pending_requests = s.pending_requests ++ record { retry = 0; sender = sender; cmd = cmd } ∷ [];
  }

  abbrev push_in_flight : Bool → PendingRequest C → ClusterConnInner C → ClusterConnInner C
  push_in_flight sleeping request s = record s {
    in_flight_requests =
        record { request = some request; sleeping = sleeping } ∷ s.in_flight_requests;
  }

  unfoldable pub handle_retries : Option (Retry C) → ClusterConnInner C → ClusterConnInner C
  handle_retries none s = s
  handle_retries (some (move_to_pending request)) s = record s {
    pending_requests = s.pending_requests ++ request ∷ [];
  }
  handle_retries (some (immediately request)) s = push_in_flight false request s
  handle_retries (some (after_sleep request sleep)) s = push_in_flight true request s

  -- The loop of `dispatch_pending`.
  unfoldable pub dispatch :
      (ℕ → Bool) → List (PendingRequest C) → ClusterConnInner C → ClusterConnInner C
  unfolding is_closed_sender
  dispatch is_closed [] s = s
  dispatch is_closed (request ∷ requests) s =
      dispatch is_closed requests
        (if is_closed_sender is_closed request.sender then s else push_in_flight false request s)

  unfoldable pub dispatch_pending : (ℕ → Bool) → ClusterConnInner C → ClusterConnInner C
  unfolding dispatch
  dispatch_pending is_closed s =
      dispatch is_closed s.pending_requests (record s { pending_requests = [] })

  -- The handling of what a request has ended with.
  unfoldable pub settle : Chosen C → ClusterConnInner C → ClusterConnInner C
  unfolding handle_retries
  settle chosen s = handle_retries chosen.retry (record s { sent = s.sent ++ chosen.sent })

  abbrev no_retry : Chosen C
  no_retry = record { retry = none; action = nothing; sent = [] }

  abbrev put_back :
      Request C → Option (Request C × List (Request C)) → Option (Request C × List (Request C))
  put_back r none = none
  put_back r (some (found, others)) = some (found, r ∷ others)

  -- The request at a position, and the others.
  unfoldable pub take_at : ℕ → List (Request C) → Option (Request C × List (Request C))
  take_at i [] = none
  take_at zero (r ∷ rs) = some (r, rs)
  take_at (suc i) (r ∷ rs) = put_back r (take_at i rs)

  abbrev cons_request :
      Option (PendingRequest C) → List (PendingRequest C) → List (PendingRequest C)
  cons_request none requests = requests
  cons_request (some request) requests = request ∷ requests

  unfoldable pub all_requests : List (Request C) → List (PendingRequest C)
  all_requests [] = []
  all_requests (r ∷ rs) = cons_request r.request (all_requests rs)

  -- The requests are taken out of their futures, which stay.
  unfoldable pub emptied : List (Request C) → List (Request C)
  emptied [] = []
  emptied (r ∷ rs) = record r { request = none } ∷ emptied rs

  -- `try_recv` of the pending requests.
  unfoldable pub first_pending :
      List (PendingRequest C) → ClusterConnInner C → List (PendingRequest C) × ClusterConnInner C
  first_pending [] s = ([], record s { pending_requests = [] })
  first_pending (request ∷ requests) s = (request ∷ [], record s { pending_requests = requests })

  -- The requests that a failed refresh of the slots ends: all that are in flight, or else the first
  -- that is pending.
  unfoldable pub taken_requests :
      List (PendingRequest C) → ClusterConnInner C → List (PendingRequest C) × ClusterConnInner C
  unfolding emptied first_pending
  taken_requests (r ∷ rs) s =
      (r ∷ rs, record s { in_flight_requests = emptied s.in_flight_requests })
  taken_requests [] s = first_pending s.pending_requests s

  module _ (random_range : ℕ → ℕ → ℕ) (params : RetryParams) where
    -- `Request::poll` when its future is ready.
    unfoldable pub poll_request :
        (ℕ → Bool)
        → OperationTarget
        → Result
        → Bool
        → Option (PendingRequest C)
        → Outcome (Chosen C)
    unfolding is_closed_sender choose_response
    poll_request is_closed target result sleeping none = ok no_retry
    poll_request is_closed target result sleeping (some request) =
        if is_closed_sender is_closed request.sender
        then ok no_retry
        else if sleeping
        then ok (record no_retry { retry = some (immediately request) })
        else choose_response random_range params target result request

    -- One round of the loop of `poll_in_flight`, for the request that was taken out.
    unfoldable pub poll_taken :
        (ℕ → Bool)
        → OperationTarget
        → Result
        → PollFlushAction
        → ClusterConnInner C
        → Option (Request C × List (Request C))
        → Outcome (ClusterConnInner C × PollFlushAction)
    unfolding poll_request settle change_state
    poll_taken is_closed target result action s none = ok (s, action)
    poll_taken is_closed target result action s (some (run, others)) = do
      chosen ← poll_request is_closed target result run.sleeping run.request
      ok (
        settle chosen (record s { in_flight_requests = others }),
        change_state action chosen.action,
      )

    -- `poll_in_flight` over the requests that are ready, each given by its position among those that
    -- are in flight when its turn comes.
    unfoldable pub poll_in_flight :
        (ℕ → Bool)
        → List (ℕ × OperationTarget × Result)
        → PollFlushAction
        → ClusterConnInner C
        → Outcome (ClusterConnInner C × PollFlushAction)
    unfolding take_at poll_taken
    poll_in_flight is_closed [] action s = ok (s, action)
    poll_in_flight is_closed ((i, target, result) ∷ ready) action s = do
      (s', action') ← poll_taken is_closed target result action s (take_at i s.in_flight_requests)
      poll_in_flight is_closed ready action' s'

    -- `choose_response` and `handle_retries` for requests that are ended by an error.
    unfoldable pub fail_requests :
        RedisError → List (PendingRequest C) → ClusterConnInner C → Outcome (ClusterConnInner C)
    unfolding choose_response settle
    fail_requests e [] s = ok s
    fail_requests e (request ∷ requests) s = do
      chosen ← choose_response random_range params not_found (failure e) request
      fail_requests e requests (settle chosen s)

    unfoldable pub send_error :
        Option RedisError → ClusterConnInner C → Outcome (ClusterConnInner C)
    unfolding all_requests taken_requests fail_requests
    send_error none s = ok s
    send_error (some e) s =
        let taken = taken_requests (all_requests s.in_flight_requests) s in
        fail_requests e taken.0 (record taken.1 { refresh_error = none })

    unfoldable pub send_refresh_error : ClusterConnInner C → Outcome (ClusterConnInner C)
    unfolding send_error
    send_refresh_error s = send_error s.refresh_error s

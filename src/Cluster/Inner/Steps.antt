-- ===== src/Cluster/Inner/Steps.antt =====
-- That each step of the connection keeps the requests of a caller that listens.
use redis_rs.Base.{
  ℕ, zero, suc, ◌+◌, ◌≡◌, refl, sym, ◌∙◌, inl, inr, Bool, true, false, Option, none, some, List, [],
  ◌∷◌, ◌++◌, ◌==◌, ==_iff, arith, Bool-cases, subst,
}
use redis_rs.Errors.Redis.{RedisError}
use redis_rs.Value.Defs.{ok}
use redis_rs.Cluster.Retry.{RetryParams}
use redis_rs.Cluster.Request.{
  Result, failure, OperationTarget, not_found, ResultExpectation, external, internal,
  PollFlushAction, PendingRequest, Retry, immediately, move_to_pending, after_sleep, Chosen,
  choose_response,
}
use redis_rs.Cluster.Request.Action.{change_state}
use redis_rs.Cluster.Request.Settled.{request_of}
use redis_rs.Cluster.Inner.Counts.{
  of_sender, of_requests, of_option, of_running, of_retry, waiting, answers, answers-append,
  of_requests-append, of_requests-all_requests, of_running-emptied,
}
use redis_rs.Cluster.Inner.Conserved.{If, If-then, If-map, Accounts, choose_response-Accounts}
use redis_rs.Cluster.Inner.{
  Request, ClusterConnInner, is_closed_sender, handle_retries, dispatch, dispatch_pending, settle,
  put_back, push_in_flight, take_at, all_requests, first_pending, taken_requests, poll_request,
  poll_taken, poll_in_flight, fail_requests, send_error, send_refresh_error,
}

-- A caller that listens is not the one that a closed sender answers.
of_sender-closed :
    (c : ℕ) (is_closed : ℕ → Bool) (sender : ResultExpectation)
    → is_closed c ≡ false
    → is_closed_sender is_closed sender ≡ true
    → of_sender c sender ≡ 0
unfolding is_closed_sender
of_sender-closed c is_closed internal listens h = refl
of_sender-closed c is_closed (external caller) listens h = elim (Bool-cases (caller == c)) [
  | inl same ↦
      let eq : caller ≡ c = (==_iff caller c).0 same in
      let closed : is_closed c ≡ true = subst (λ n. is_closed n ≡ true) eq h in cc (closed, listens)
  | inr other ↦ rw other refl
]

module _ {C : Type 0} (c : ℕ) where
  -- The requests of a caller that wait, and those that have an answer.
  unfoldable pub total : ClusterConnInner C → ℕ
  unfolding waiting answers
  total s = waiting c s + answers c s.sent

  total-handle_retries :
      (r : Option (Retry C)) (s : ClusterConnInner C)
      → total (handle_retries r s) ≡ total s + of_retry c r
  unfolding handle_retries total waiting request_of
  total-handle_retries none s = omega arith
  total-handle_retries (some (move_to_pending request)) s =
      omega (arith, of_requests-append c s.pending_requests (request ∷ []))
  total-handle_retries (some (immediately request)) s = omega arith
  total-handle_retries (some (after_sleep request sleep)) s = omega arith

  total-settle :
      (chosen : Chosen C) (s : ClusterConnInner C)
      → total (settle chosen s) ≡ total s + (answers c chosen.sent + of_retry c chosen.retry)
  unfolding settle total waiting
  total-settle chosen s = omega (
    arith,
    total-handle_retries chosen.retry (record s { sent = s.sent ++ chosen.sent }),
    answers-append c s.sent chosen.sent,
  )

  abbrev Takes : List (Request C) → Option (Request C × List (Request C)) → Type 0
  Takes rs none = Unit
  Takes rs (some (run, others)) = of_running c rs ≡ of_option c run.request + of_running c others

  put_back-Takes :
      (r : Request C) (rs : List (Request C)) (o : Option (Request C × List (Request C)))
      → Takes rs o
      → Takes (r ∷ rs) (put_back r o)
  put_back-Takes r rs none h = tt
  put_back-Takes r rs (some (run, others)) h = omega (arith, h)

  take_at-Takes : (i : ℕ) (rs : List (Request C)) → Takes rs (take_at i rs)
  unfolding take_at
  take_at-Takes i [] = tt
  take_at-Takes zero (r ∷ rs) = refl
  take_at-Takes (suc i) (r ∷ rs) = put_back-Takes r rs (take_at i rs) (take_at-Takes i rs)

  module _ (is_closed : ℕ → Bool) (listens : is_closed c ≡ false) where
    total-dispatch :
        (rs : List (PendingRequest C)) (s : ClusterConnInner C)
        → total (dispatch is_closed rs s) ≡ total s + of_requests c rs
    unfolding dispatch total waiting
    total-dispatch [] s = omega arith
    total-dispatch (r ∷ rs) s = elim (Bool-cases (is_closed_sender is_closed r.sender)) [
      | inl closed ↦
          rw (closed, dispatch)
            (omega
              (arith, total-dispatch rs s, of_sender-closed c is_closed r.sender listens closed))
      | inr listening ↦
          rw (listening, dispatch) (omega (arith, total-dispatch rs (push_in_flight false r s)))
    ]

    pub total-dispatch_pending :
        (s : ClusterConnInner C) → total (dispatch_pending is_closed s) ≡ total s
    unfolding dispatch_pending total waiting
    total-dispatch_pending s =
        omega (arith, total-dispatch s.pending_requests (record s { pending_requests = [] }))

  module _ (random_range : ℕ → ℕ → ℕ) (params : RetryParams) where
    -- A step that returns leaves the total as it was.
    abbrev Same : ClusterConnInner C → ClusterConnInner C → Type 0
    Same s s' = total s' ≡ total s

    total-fail_requests :
        (e : RedisError) (rs : List (PendingRequest C)) (s : ClusterConnInner C)
        → If
            (λ s'. total s' ≡ total s + of_requests c rs)
            (fail_requests random_range params e rs s)
    unfolding fail_requests
    total-fail_requests e [] s = omega arith
    total-fail_requests e (r ∷ rs) s =
        If-then (Accounts c r) _ (choose_response random_range params not_found (failure e) r)
          (λ chosen. fail_requests random_range params e rs (settle chosen s))
          (choose_response-Accounts c random_range params not_found (failure e) r)
          (λ chosen accounts.
            If-map (λ s'. total s' ≡ total (settle chosen s) + of_requests c rs) _
              (fail_requests random_range params e rs (settle chosen s))
              (λ s' h. omega (arith, h, total-settle chosen s, accounts))
              (total-fail_requests e rs (settle chosen s)))

    total-first_pending :
        (rs : List (PendingRequest C)) (s : ClusterConnInner C)
        → rs ≡ s.pending_requests
        → total (first_pending rs s).1 + of_requests c (first_pending rs s).0 ≡ total s
    unfolding first_pending total waiting
    total-first_pending [] s eq = rw (sym eq) (omega arith)
    total-first_pending (r ∷ rs) s eq = rw (sym eq) (omega arith)

    total-taken_requests :
        (rs : List (PendingRequest C)) (s : ClusterConnInner C)
        → of_requests c rs ≡ of_running c s.in_flight_requests
        → total (taken_requests rs s).1 + of_requests c (taken_requests rs s).0 ≡ total s
    unfolding taken_requests total waiting
    total-taken_requests [] s eq = total-first_pending s.pending_requests s refl
    total-taken_requests (r ∷ rs) s eq =
        omega (arith, eq, of_running-emptied c s.in_flight_requests)

    total-poll_request :
        (is_closed : ℕ → Bool) (target : OperationTarget) (result : Result) (sleeping : Bool)
        (request : Option (PendingRequest C))
        → is_closed c ≡ false
        → If
            (λ chosen. answers c chosen.sent + of_retry c chosen.retry ≡ of_option c request)
            (poll_request random_range params is_closed target result sleeping request)
    unfolding poll_request answers request_of
    total-poll_request is_closed target result sleeping none listens = refl
    total-poll_request is_closed target result sleeping (some request) listens =
        elim (Bool-cases (is_closed_sender is_closed request.sender)) [
          | inl closed ↦
              rw (closed, of_sender-closed c is_closed request.sender listens closed) refl
          | inr listening ↦ elim (Bool-cases sleeping) [
            | inl asleep ↦ rw (listening, asleep) (omega arith)
            | inr awake ↦
                rw (listening, awake)
                  (choose_response-Accounts c random_range params target result request)
          ]
        ]

    total-taken :
        (s : ClusterConnInner C) (run : Request C) (others : List (Request C)) (n : ℕ)
        → n ≡ of_option c run.request
        → of_running c s.in_flight_requests ≡ of_option c run.request + of_running c others
        → total (record s { in_flight_requests = others }) + n ≡ total s
    unfolding total waiting
    total-taken s run others n eq h = omega (arith, eq, h)

    total-poll_taken :
        (is_closed : ℕ → Bool) (target : OperationTarget) (result : Result)
        (action : PollFlushAction) (s : ClusterConnInner C)
        (o : Option (Request C × List (Request C)))
        → is_closed c ≡ false
        → Takes s.in_flight_requests o
        → If
            (λ r. total r.0 ≡ total s)
            (poll_taken random_range params is_closed target result action s o)
    unfolding poll_taken
    total-poll_taken is_closed target result action s none listens h = refl
    total-poll_taken is_closed target result action s (some (run, others)) listens h =
        If-then
          (λ chosen. answers c chosen.sent + of_retry c chosen.retry ≡ of_option c run.request) _
          (poll_request random_range params is_closed target result run.sleeping run.request)
          (λ chosen. ok (
            settle chosen (record s { in_flight_requests = others }),
            change_state action chosen.action,
          ))
          (total-poll_request is_closed target result run.sleeping run.request listens)
          (λ chosen accounts.
            total-settle chosen (record s { in_flight_requests = others })
            ∙ total-taken s run others _ accounts h)

    pub total-poll_in_flight :
        (is_closed : ℕ → Bool) (ready : List (ℕ × OperationTarget × Result))
        (action : PollFlushAction) (s : ClusterConnInner C)
        → is_closed c ≡ false
        → If
            (λ r. total r.0 ≡ total s)
            (poll_in_flight random_range params is_closed ready action s)
    unfolding poll_in_flight
    total-poll_in_flight is_closed [] action s listens = refl
    total-poll_in_flight is_closed ((i, target, result) ∷ ready) action s listens =
        If-then (λ r. total r.0 ≡ total s) _
          (poll_taken random_range params is_closed target result action s
            (take_at i s.in_flight_requests))
          (λ r. poll_in_flight random_range params is_closed ready r.1 r.0)
          (total-poll_taken is_closed target result action s (take_at i s.in_flight_requests)
            listens (take_at-Takes i s.in_flight_requests))
          (λ r same.
            If-map (λ r'. total r'.0 ≡ total r.0) _
              (poll_in_flight random_range params is_closed ready r.1 r.0) (λ r' h. h ∙ same)
              (total-poll_in_flight is_closed ready r.1 r.0 listens))

    total-send_error :
        (error : Option RedisError) (s : ClusterConnInner C)
        → If (λ s'. total s' ≡ total s) (send_error random_range params error s)
    unfolding send_error total waiting
    total-send_error none s = refl
    total-send_error (some e) s =
        let taken = taken_requests (all_requests s.in_flight_requests) s in
        If-map
          (λ s'. total s' ≡ total (record taken.1 { refresh_error = none }) + of_requests c taken.0)
          _ (fail_requests random_range params e taken.0 (record taken.1 { refresh_error = none }))
          (λ s' h.
            h
            ∙ total-taken_requests (all_requests s.in_flight_requests) s
                (of_requests-all_requests c s.in_flight_requests))
          (total-fail_requests e taken.0 (record taken.1 { refresh_error = none }))

    pub total-send_refresh_error :
        (s : ClusterConnInner C)
        → If (λ s'. total s' ≡ total s) (send_refresh_error random_range params s)
    unfolding send_refresh_error
    total-send_refresh_error s = total-send_error s.refresh_error s

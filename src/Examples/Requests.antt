-- ===== src/Examples/Requests.antt =====
-- The theorems on the requests to a cluster at concrete inputs.
use redis_rs.Base.{
  ℕ, Option, inl, inr, zero, suc, ◌+◌, false, ◌≤◌, ◌≡◌, refl, true, none, some, List, [], ◌∷◌,
  codes, arith,
}
use redis_rs.Errors.Server.{ServerError, known, try_again}
use redis_rs.Errors.Server
use redis_rs.Errors.Redis.{server, is_whitespace}
use redis_rs.Errors.Retry.{last, next}
use redis_rs.Value.Defs.{server_error, ok, err}
use redis_rs.Cmd.{new}
use mathlib.Core.List.{Memᴰ}
use redis_rs.Cluster.Slot.{Route, replica_optional}
use redis_rs.Cluster.SlotMap.{
  NodeAddress, SlotMap, from_slots, fill_slots, slot_addr_for_route, shard_fallback_addrs,
}
use redis_rs.Cluster.Connections.{
  ConnectionMap, connected, reconnecting, no_connections, connection_for_route,
}
use redis_rs.Cluster.SlotRangeMap.{get}
use redis_rs.Cluster.Connections.Covers.{tried, Covers}
use redis_rs.Cluster.Connections.Choice.{IsChoice, IsFirst, connection_for_route-IsFirst}
use redis_rs.Cluster.Address.{display, try_from}
use redis_rs.Cluster.Address.RoundTrip.{try_from-display}
use redis_rs.Cluster.Retry.{RetryParams, wait_time_for_retry}
use redis_rs.Cluster.Request.{
  Redirect, moved, ask, random, redirect, single_node, command, single, Result, success, failure,
  node, not_found, external, PendingRequest, immediately, Chosen, PollFlushAction, nothing,
  rebuild_slots, reconnect_to, send, u32_succ, choose_response,
}
use redis_rs.Cluster.Request.Settled.{IsSettled, choose_response-IsSettled}
use redis_rs.Cluster.Request.Attempts.{attempts, attempts-answered}
use redis_rs.Cluster.Request.Action.{fold_actions, strongest, fold_actions-strongest}
use redis_rs.Cluster.Inner.{ClusterConnInner, start_send, dispatch_pending, poll_in_flight}
use redis_rs.Cluster.Inner.Counts.{waiting, answers}
use redis_rs.Cluster.Inner.Reach.{
  initial, move, arrive, start, dispatch, poll, arrived, Reach-arrived,
}
use redis_rs.Cluster.Request.Redirection.{redirection, IsReadable, choose_response-redirection}

abbrev local : NodeAddress
local = record { host = codes "::1"; port = 6379 }

try_from-display_example : try_from (display local) ≡ some local
try_from-display_example = try_from-display b':' (codes ":1") 6379 refl refl (omega arith)

-- Two retries, after waits of 5 ms.
abbrev params : RetryParams
params = record {
  number_of_retries = 2;
  max_wait_time = 10;
  min_wait_time = 5;
  exponent_base = 1;
  factor = 1;
}

abbrev lowest : ℕ → ℕ → ℕ
lowest low high = low

abbrev request : PendingRequest ℕ
request = record { retry = 0; sender = external 7; cmd = command new (single_node random) }

abbrev busy : Result
busy = failure (server (known try_again none))

choose_response-IsSettled_example :
    (c : Chosen ℕ) × (choose_response lowest params (node local) busy request ≡ ok c)
    × IsSettled params request c
unfolding wait_time_for_retry u32_succ
choose_response-IsSettled_example =
    choose_response-IsSettled lowest params request 5 (omega arith) refl (node local) busy

waits : (k : ℕ) → k ≤ 3 → (sleep : ℕ) × (wait_time_for_retry lowest params k ≡ ok sleep)
unfolding wait_time_for_retry
waits zero h = (5, refl)
waits (suc zero) h = (5, refl)
waits (suc (suc zero)) h = (5, refl)
waits (suc (suc (suc zero))) h = (5, refl)
waits (suc (suc (suc (suc k)))) h = absurd (omega arith)

attempts-answered_example :
    (r : Result) × (attempts lowest params
        ((node local, busy) ∷ (not_found, busy) ∷ (node local, busy) ∷ [])
        request
      ≡ ok (none, send (external 7) r))
attempts-answered_example =
    attempts-answered lowest params (omega arith) waits
      ((node local, busy) ∷ (not_found, busy) ∷ (node local, busy) ∷ []) request (omega arith)
      (omega arith)

fold_actions-strongest_example :
    fold_actions nothing (reconnect_to (local ∷ []) ∷ nothing ∷ rebuild_slots ∷ [])
    ≡ strongest (reconnect_to (local ∷ []) ∷ nothing ∷ rebuild_slots ∷ [])
fold_actions-strongest_example =
    fold_actions-strongest (reconnect_to (local ∷ []) ∷ nothing ∷ rebuild_slots ∷ [])

readable : IsReadable b':' (codes ":1") 6379
unfolding is_whitespace
readable = record {
  word = next b':' _ refl (next b':' _ refl (last b'1' refl));
  opens = refl;
  closes = refl;
  bound = omega arith;
}

first_wait : wait_time_for_retry lowest params 1 ≡ ok 5
unfolding wait_time_for_retry
first_wait = refl

abbrev chosen_for : Redirect → PollFlushAction → Chosen ℕ
chosen_for r action = record {
  retry = some (
      immediately
        (record request { retry = 1; cmd = command new (single_node (redirect r random)) }));
  action = action;
  sent = [];
}

choose_response-redirection_example :
    (choose_response lowest params
        (node local)
        (success (single (server_error (redirection Server.moved 3999 local))))
        request
      ≡ ok (chosen_for (moved local) rebuild_slots))
    × (choose_response lowest params
          (node local)
          (success (single (server_error (redirection Server.ask 3999 local))))
          request
        ≡ ok (chosen_for (ask local) nothing))
choose_response-redirection_example =
    choose_response-redirection lowest params (external 7) 0 5 3999 b':' (codes ":1") 6379 local new
      random (omega arith) first_wait (omega arith) (omega arith) readable

abbrev arrived_state : ClusterConnInner ℕ
arrived_state =
    dispatch_pending (λ caller. false)
      (start_send request.cmd (external 7) (initial lowest params 7))

-- The attempt at the request ends with an error for which the request waits.
abbrev waiting_state : ClusterConnInner ℕ
waiting_state = record {
  pending_requests = [];
  in_flight_requests =
      record { request = some (record request { retry = 1 }); sleeping = true } ∷ [];
  refresh_error = none;
  sent = [];
}

polled :
    poll_in_flight lowest params
      (λ caller. false)
      ((0, node local, busy) ∷ [])
      nothing
      arrived_state
    ≡ ok (waiting_state, nothing)
unfolding poll_in_flight dispatch_pending start_send wait_time_for_retry
polled = refl

Reach-arrived_example :
    waiting 7 waiting_state + answers 7 waiting_state.sent ≡ arrived 7 (external 7 ∷ [])
Reach-arrived_example = Reach-arrived lowest params 7 (external 7 ∷ []) waiting_state (
    move (external 7 ∷ []) arrived_state waiting_state
      (move (external 7 ∷ []) _ arrived_state
        (arrive [] (initial lowest params 7) request.cmd (external 7) start)
        (dispatch (λ caller. false) _ refl))
      (poll (λ caller. false) ((0, node local, busy) ∷ []) nothing arrived_state waiting_state refl
        polled))

abbrev remote : NodeAddress
remote = record { host = codes "10.0.0.2"; port = 7000 }

-- The primary of all slots is being connected anew, and its replica is connected.
abbrev connections : ConnectionMap ℕ
connections = (local, reconnecting 1) ∷ (remote, connected 2) ∷ []

abbrev slots : SlotMap
slots =
    from_slots (
      record { start = 0; end_slot = 16383; master_node = local; replica_nodes = remote ∷ [] } ∷ [])

abbrev first_choice : List (NodeAddress × ℕ) → Option (NodeAddress × ℕ)
first_choice [] = none
first_choice (x ∷ xs) = some x

first_choice-IsChoice : IsChoice first_choice
first_choice-IsChoice [] = inl (refl, refl)
first_choice-IsChoice (x ∷ xs) = inr (x, refl, Memᴰ.head refl)

abbrev read_route : Route
read_route = record { slot = 7; slot_addr = replica_optional }

connection_for_route-IsFirst_example :
    (others : List NodeAddress) × IsFirst
      (tried (slot_addr_for_route (λ r. r.first) slots read_route none) others)
      connections
      connections
      (connection_for_route first_choice
        (λ r. r.first)
        (λ r. err no_connections)
        connections
        slots
        none
        connections
        read_route)
    × Covers
        (get read_route.slot slots)
        read_route.slot_addr
        (tried (slot_addr_for_route (λ r. r.first) slots read_route none) others)
connection_for_route-IsFirst_example =
    connection_for_route-IsFirst first_choice (λ r. r.first) (λ r. err no_connections) connections
      connections slots none read_route first_choice-IsChoice (λ r. Memᴰ.head refl) tt

-- The read goes to the replica.
connection_for_route_test :
    connection_for_route first_choice
      (λ r. r.first)
      (λ r. err no_connections)
      connections
      slots
      none
      connections
      read_route
    ≡ ok (remote, 2)
unfolding connection_for_route from_slots fill_slots slot_addr_for_route shard_fallback_addrs
connection_for_route_test = refl

-- ===== src/Cluster/Request.antt =====
-- What becomes of a request to a cluster when an attempt has ended: `CmdArg`, `Retry`,
-- `PendingRequest`, `choose_response` of redis/src/cluster_handling/async_connection/request.rs, with
-- `InternalRoutingInfo` of routing.rs, `Response`, `OperationTarget` and `PollFlushAction` of mod.rs.
-- A caller's channel is a number, `C` the type of the connections. A set of addresses is a list.
pub mod Settled
pub mod Redirection
pub mod Attempts
pub mod Action
use redis_rs.Base.{
  ℕ, zero, suc, ◌+◌, Bool, true, false, Option, none, some, List, [], ◌∷◌, ◌++◌, Bytes, ltb, leb,
  if◌then◌else◌,
}
use redis_rs.Errors.Server.{
  RetryMethod, reconnect_from_initial_connections, ask_redirect, moved_redirect,
  refresh_slots_and_retry, wait_and_retry, no_retry, retry_immediately,
}
use redis_rs.Errors.Server
use redis_rs.Errors.Redis.{RedisError, retry_method, redirect_node}
use redis_rs.Value.Defs.{Value, nil, Outcome, ok, err, panicked, ◌>>=◌}
use redis_rs.Value.Methods.{is_error_that_requires_action, extract_error}
use redis_rs.Cmd.{Cmd}
use redis_rs.Cluster.Slot.{Route}
use redis_rs.Cluster.ResponsePolicy.{ResponsePolicy}
use redis_rs.Cluster.MultiShard.{MultipleNodeRoutingInfo}
use redis_rs.Cluster.SlotMap.{NodeAddress}
use redis_rs.Cluster.Address.{try_from}
use redis_rs.Cluster.Retry.{RetryParams, wait_time_for_retry}

pub data Redirect : Type 0 where
  moved ask : NodeAddress → Redirect

pub data InternalSingleNodeRouting (C : Type 0) : Type 0 where
  random : InternalSingleNodeRouting C
  specific_node : Route → InternalSingleNodeRouting C
  by_address : NodeAddress → InternalSingleNodeRouting C
  connection : NodeAddress → C → InternalSingleNodeRouting C
  redirect : Redirect → InternalSingleNodeRouting C → InternalSingleNodeRouting C

pub data InternalRoutingInfo (C : Type 0) : Type 0 where
  single_node : InternalSingleNodeRouting C → InternalRoutingInfo C
  multi_node : MultipleNodeRoutingInfo → Option ResponsePolicy → InternalRoutingInfo C

-- A pipeline is the list of its commands and whether it is a transaction.
pub data CmdArg (C : Type 0) : Type 0 where
  command : Cmd → InternalRoutingInfo C → CmdArg C
  pipeline : List Cmd → Bool → ℕ → ℕ → InternalSingleNodeRouting C → CmdArg C
  reconnect : NodeAddress → CmdArg C

pub data Response : Type 0 where
  single : Value → Response
  multiple : List Value → Response

pub data OperationTarget : Type 0 where
  node : NodeAddress → OperationTarget
  not_found fan_out : OperationTarget

-- `Result<Response, RedisError>`.
pub data Result : Type 0 where
  success : Response → Result
  failure : RedisError → Result

pub data ResultExpectation : Type 0 where
  external : ℕ → ResultExpectation
  internal : ResultExpectation

pub data PollFlushAction : Type 0 where
  nothing rebuild_slots : PollFlushAction
  reconnect_to : List NodeAddress → PollFlushAction
  reconnect_initial : PollFlushAction

-- `ResultExpectation::send`: what it sends, and to whom.
unfoldable pub send : ResultExpectation → Result → List (ℕ × Result)
send (external caller) r = (caller, r) ∷ []
send internal r = []

module _ {C : Type 0} where
  unfoldable pub redirected : Redirect → InternalRoutingInfo C → InternalRoutingInfo C
  redirected r (single_node route) = single_node (redirect r route)
  redirected r (multi_node info policy) = multi_node info policy

  unfoldable pub set_redirect : Option Redirect → CmdArg C → CmdArg C
  unfolding redirected
  set_redirect none cmd = cmd
  set_redirect (some r) (reconnect addr) = reconnect addr
  set_redirect (some r) (command cmd routing) = command cmd (redirected r routing)
  set_redirect (some r) (pipeline cmds atomic offset count route) =
      pipeline cmds atomic offset count (redirect r route)

  -- The closure `fix_route`.
  unfoldable pub fix_route : InternalSingleNodeRouting C → InternalSingleNodeRouting C
  fix_route (redirect r previous) = fix_route previous
  fix_route (connection identifier conn) = by_address identifier
  fix_route random = random
  fix_route (specific_node route) = specific_node route
  fix_route (by_address addr) = by_address addr

  unfoldable pub reset_info : InternalRoutingInfo C → InternalRoutingInfo C
  unfolding fix_route
  reset_info (single_node route) = single_node (fix_route route)
  reset_info (multi_node info policy) = multi_node info policy

  unfoldable pub reset_routing : CmdArg C → CmdArg C
  unfolding fix_route reset_info
  reset_routing (reconnect addr) = reconnect addr
  reset_routing (command cmd routing) = command cmd (reset_info routing)
  reset_routing (pipeline cmds atomic offset count route) =
      pipeline cmds atomic offset count (fix_route route)

pub record PendingRequest (C : Type 0) : Type 0 where
  pub retry : ℕ
  pub sender : ResultExpectation
  pub cmd : CmdArg C

-- The duration of a sleep is in milliseconds.
pub data Retry (C : Type 0) : Type 0 where
  immediately : PendingRequest C → Retry C
  move_to_pending : PendingRequest C → Retry C
  after_sleep : PendingRequest C → ℕ → Retry C

-- What `choose_response` returns, with what it sent.
pub record Chosen (C : Type 0) : Type 0 where
  pub retry : Option (Retry C)
  pub action : PollFlushAction
  pub sent : List (ℕ × Result)

-- `unwrap_err`.
unfoldable pub unwrap_err {ℓ} : {A : Type ℓ} → Outcome A → Outcome RedisError
unwrap_err (ok a) = panicked
unwrap_err (err e) = ok e
unwrap_err panicked = panicked

unfoldable pub error_of_value : Value → Outcome (Option RedisError)
unfolding is_error_that_requires_action extract_error unwrap_err
error_of_value v =
    if is_error_that_requires_action v
    then (unwrap_err (extract_error v) >>= λ e. ok (some e))
    else ok none

-- The first value with an error that requires an action.
unfoldable pub error_of_values : List Value → Outcome (Option RedisError)
unfolding error_of_value
error_of_values [] = ok none
error_of_values (v ∷ vs) =
    if is_error_that_requires_action v then error_of_value v else error_of_values vs

unfoldable pub error_of_response : Response → Outcome (Option RedisError)
unfolding error_of_value error_of_values
error_of_response (single v) = error_of_value v
error_of_response (multiple vs) = error_of_values vs

-- The error that an attempt ended with.
unfoldable pub error_of : Result → Outcome (Option RedisError)
unfolding error_of_response
error_of (success item) = error_of_response item
error_of (failure e) = ok (some e)

-- What the final `match` says for a target and a retry method: how the request goes on if retries
-- remain, or that it does not.
pub data Plan : Type 0 where
  give_up requeue requeue_reset follow_ask follow_moved wait wait_reset : Plan

unfoldable pub plan : OperationTarget → RetryMethod → Plan × PollFlushAction
plan target reconnect_from_initial_connections = (requeue_reset, reconnect_initial)
plan (node address) Server.reconnect = (requeue_reset, reconnect_to (address ∷ []))
plan fan_out method = (give_up, nothing)
plan not_found method = (wait_reset, rebuild_slots)
plan target ask_redirect = (follow_ask, nothing)
plan target moved_redirect = (follow_moved, rebuild_slots)
plan target refresh_slots_and_retry = (requeue_reset, rebuild_slots)
plan target wait_and_retry = (wait, nothing)
plan target no_retry = (give_up, nothing)
plan target retry_immediately = (requeue, nothing)

-- `err.redirect_node().and_then(|(node, _slot)| NodeAddress::try_from(node).ok().map(…))`
unfoldable pub redirect_of : (NodeAddress → Redirect) → Option (Bytes × ℕ) → Option Redirect
redirect_of how none = none
redirect_of how (some (addr, slot)) = elim (try_from addr) [
  | none ↦ none
  | some address ↦ some (how address)
]

-- `saturating_add(1)` of a `u32`.
unfoldable pub u32_succ : ℕ → ℕ
u32_succ n = if ltb n 4294967295 then suc n else 4294967295

module _ {C : Type 0} where
  abbrev with_cmd : CmdArg C → PendingRequest C → PendingRequest C
  with_cmd cmd request = record request { cmd = cmd }

  unfoldable pub retry_as : Plan → RedisError → ℕ → PendingRequest C → Option (Retry C)
  unfolding set_redirect reset_routing redirect_of redirect_node
  retry_as give_up e sleep request = none
  retry_as requeue e sleep request = some (move_to_pending request)
  retry_as requeue_reset e sleep request =
      some (move_to_pending (with_cmd (reset_routing request.cmd) request))
  retry_as follow_ask e sleep request = some (
      immediately (with_cmd (set_redirect (redirect_of ask (redirect_node e)) request.cmd) request))
  retry_as follow_moved e sleep request = some (
      immediately
        (with_cmd (set_redirect (redirect_of moved (redirect_node e)) request.cmd) request))
  retry_as wait e sleep request = some (after_sleep request sleep)
  retry_as wait_reset e sleep request =
      some (after_sleep (with_cmd (reset_routing request.cmd) request) sleep)

  -- A retry, or the error as the answer.
  unfoldable pub retry_or_send :
      Option (Retry C) → PollFlushAction → ResultExpectation → RedisError → Chosen C
  unfolding send
  retry_or_send none action sender e = record {
    retry = none;
    action = action;
    sent = send sender (failure e);
  }
  retry_or_send (some r) action sender e = record { retry = some r; action = action; sent = [] }

  module _ (random_range : ℕ → ℕ → ℕ) (params : RetryParams) where
    -- The retry, or the error as the answer, once the sleep is known.
    unfoldable pub chosen_after : OperationTarget → RedisError → PendingRequest C → ℕ → Chosen C
    unfolding u32_succ retry_method plan retry_as retry_or_send
    chosen_after target e request sleep =
        let next = record request { retry = u32_succ request.retry } in
        let chosen = plan target (retry_method e) in
        retry_or_send
          (if ltb request.retry params.number_of_retries
            then retry_as chosen.0 e sleep next
            else none)
          chosen.1 request.sender e

    unfoldable pub choose_retry :
        OperationTarget → RedisError → PendingRequest C → Outcome (Chosen C)
    unfolding u32_succ wait_time_for_retry chosen_after
    choose_retry target e request = do
      sleep ← wait_time_for_retry random_range params (u32_succ request.retry)
      ok (chosen_after target e request sleep)

    unfoldable pub choose_by_error :
        OperationTarget → Result → PendingRequest C → Option RedisError → Outcome (Chosen C)
    unfolding send choose_retry
    choose_by_error target result request none =
        ok (record { retry = none; action = nothing; sent = send request.sender result })
    choose_by_error target result request (some e) = choose_retry target e request

    unfoldable pub choose_for :
        CmdArg C → OperationTarget → Result → PendingRequest C → Outcome (Chosen C)
    unfolding send error_of choose_by_error
    choose_for (reconnect addr) target result request = ok (record {
      retry = none;
      action = reconnect_to (addr ∷ []);
      sent = send request.sender (success (single nil));
    })
    choose_for (command cmd routing) target result request =
        error_of result >>= choose_by_error target result request
    choose_for (pipeline cmds atomic offset count route) target result request =
        error_of result >>= choose_by_error target result request

    unfoldable pub choose_response :
        OperationTarget → Result → PendingRequest C → Outcome (Chosen C)
    unfolding choose_for
    choose_response target result request = choose_for request.cmd target result request

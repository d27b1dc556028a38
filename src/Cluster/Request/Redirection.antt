-- ===== src/Cluster/Request/Redirection.antt =====
-- Where a request goes when it is tried again.
use redis_rs.Base.{
  ℕ, suc, ◌≤◌, ◌<◌, ◌≡◌, refl, ap, ◌∙◌, ◌⊎◌, inl, inr, true, false, Option, none, some, List, [],
  ◌∷◌, ◌++◌, Bytes, lt→ltb, to_decimal, to_decimal-IsDigits, arith, ◌==◌,
}
use redis_rs.Errors.Server.{
  ServerError, ServerErrorKind, requires_action, known, err_parser-error_line, error_line,
  kind_code, err_parser, moved_redirect,
}
use redis_rs.Errors.Server
use redis_rs.Errors.Redis.{server, u16_max, retry_method, is_whitespace, redirect_node}
use redis_rs.Errors.Retry.{IsWord, IsDigits-IsWord, last, next, redirect_node-err_parser}
use redis_rs.Value.Defs.{server_error, ok}
use redis_rs.Value.Methods.{is_error_that_requires_action, extract_error}
use redis_rs.Cmd.{Cmd}
use redis_rs.Cluster.SlotMap.{NodeAddress}
use redis_rs.Cluster.Address.{display}
use redis_rs.Cluster.Address.RoundTrip.{last_byte, try_from-display}
use redis_rs.Cluster.Retry.{RetryParams, wait_time_for_retry}
use redis_rs.Cluster.Request.{
  Redirect, moved, ask, InternalSingleNodeRouting, random, specific_node, by_address, connection,
  redirect, InternalRoutingInfo, single_node, multi_node, CmdArg, command, pipeline, reconnect,
  single, success, node, PendingRequest, immediately, ResultExpectation, PollFlushAction, nothing,
  Plan, follow_ask, follow_moved, unwrap_err, rebuild_slots, redirected, set_redirect, fix_route,
  reset_info, reset_routing, error_of_value, error_of_response, error_of, choose_retry,
  choose_by_error, choose_for, choose_response, plan, retry_as, retry_or_send, redirect_of,
  u32_succ,
}

module _ {C : Type 0} where
  -- The routes that are left when a request starts afresh.
  abbrev IsFresh : InternalSingleNodeRouting C → Type 0
  IsFresh random = Unit
  IsFresh (specific_node route) = Unit
  IsFresh (by_address addr) = Unit
  IsFresh (connection identifier conn) = ⊥
  IsFresh (redirect r previous) = ⊥

  abbrev IsFreshInfo : InternalRoutingInfo C → Type 0
  IsFreshInfo (single_node route) = IsFresh route
  IsFreshInfo (multi_node info policy) = Unit

  abbrev pub IsFreshCmd : CmdArg C → Type 0
  IsFreshCmd (command cmd routing) = IsFreshInfo routing
  IsFreshCmd (pipeline cmds atomic offset count route) = IsFresh route
  IsFreshCmd (reconnect addr) = Unit

  fix_route-IsFresh : (route : InternalSingleNodeRouting C) → IsFresh (fix_route route)
  unfolding fix_route
  fix_route-IsFresh random = tt
  fix_route-IsFresh (specific_node route) = tt
  fix_route-IsFresh (by_address addr) = tt
  fix_route-IsFresh (connection identifier conn) = tt
  fix_route-IsFresh (redirect r previous) = fix_route-IsFresh previous

  reset_info-IsFresh : (routing : InternalRoutingInfo C) → IsFreshInfo (reset_info routing)
  unfolding reset_info
  reset_info-IsFresh (single_node route) = fix_route-IsFresh route
  reset_info-IsFresh (multi_node info policy) = tt

  reset_routing-IsFresh : (cmd : CmdArg C) → IsFreshCmd (reset_routing cmd)
  unfolding reset_routing
  reset_routing-IsFresh (command cmd routing) = reset_info-IsFresh routing
  reset_routing-IsFresh (pipeline cmds atomic offset count route) = fix_route-IsFresh route
  reset_routing-IsFresh (reconnect addr) = tt

  reset_info-redirected :
      (r : Redirect) (routing : InternalRoutingInfo C)
      → reset_info (redirected r routing) ≡ reset_info routing
  unfolding reset_info redirected fix_route
  reset_info-redirected r (single_node route) = refl
  reset_info-redirected r (multi_node info policy) = refl

  reset_routing-set_redirect :
      (r : Option Redirect) (cmd : CmdArg C)
      → reset_routing (set_redirect r cmd) ≡ reset_routing cmd
  unfolding reset_routing set_redirect fix_route
  reset_routing-set_redirect none cmd = refl
  reset_routing-set_redirect (some r) (command cmd routing) =
      ap (command cmd) (reset_info-redirected r routing)
  reset_routing-set_redirect (some r) (pipeline cmds atomic offset count route) = refl
  reset_routing-set_redirect (some r) (reconnect addr) = refl

  abbrev pub redirected_by : List (Option Redirect) → CmdArg C → CmdArg C
  redirected_by [] cmd = cmd
  redirected_by (r ∷ rs) cmd = redirected_by rs (set_redirect r cmd)

  -- A request whose routing is reset after any number of redirections is routed as if there had been
  -- none, and neither to a redirection nor to a connection that was chosen before.
  pub reset_routing-redirected_by :
      (rs : List (Option Redirect)) (cmd : CmdArg C)
      → (reset_routing (redirected_by rs cmd) ≡ reset_routing cmd)
        × IsFreshCmd (reset_routing (redirected_by rs cmd))
  reset_routing-redirected_by rs cmd =
      (redirections rs cmd, reset_routing-IsFresh (redirected_by rs cmd))
    where
      redirections :
          (rs : List (Option Redirect)) (cmd : CmdArg C)
          → reset_routing (redirected_by rs cmd) ≡ reset_routing cmd
      redirections [] cmd = refl
      redirections (r ∷ rs) cmd =
          redirections rs (set_redirect r cmd) ∙ reset_routing-set_redirect r cmd

IsWord-append : (w v : Bytes) → IsWord w → IsWord v → IsWord (w ++ v)
IsWord-append w v (last c h) k = next c v h k
IsWord-append w v (next c cs h r) k = next c (cs ++ v) h (IsWord-append cs v r k)

display-IsWord : (a : NodeAddress) → IsWord a.host → IsWord (display a)
unfolding display is_whitespace
display-IsWord a h =
    IsWord-append a.host _ h (next b':' _ refl (IsDigits-IsWord _ (to_decimal-IsDigits a.port)))

-- The text of an error that redirects to an address.
abbrev pub redirection : ServerErrorKind → ℕ → NodeAddress → ServerError
redirection k slot a = err_parser (kind_code k ++ b' ' ∷ (to_decimal slot ++ b' ' ∷ display a))

-- An address whose text can be read: the host is a word that begins with no `[` and ends with no `]`,
-- and the port has 16 bits.
pub record IsReadable (c : ℕ) (cs : Bytes) (port : ℕ) : Type 0 where
  pub word : IsWord (c ∷ cs)
  pub opens : (c == b'[') ≡ false
  pub closes : (last_byte c cs == b']') ≡ false
  pub bound : port ≤ u16_max

redirect_of-redirection :
    (how : NodeAddress → Redirect) (k : ServerErrorKind) (slot c : ℕ) (cs : Bytes) (port : ℕ)
    → (k ≡ Server.moved) ⊎ (k ≡ Server.ask)
    → slot ≤ u16_max
    → IsReadable c cs port
    → redirect_of how
        (redirect_node (server (redirection k slot (record { host = c ∷ cs; port = port }))))
      ≡ some (how (record { host = c ∷ cs; port = port }))
unfolding redirect_of
redirect_of-redirection how k slot c cs port which small readable =
    rw
      (
        redirect_node-err_parser k slot (display (record { host = c ∷ cs; port = port })) which
            small (display-IsWord _ readable.word),
        redirect_of,
        try_from-display c cs port readable.opens readable.closes readable.bound,
      )
      refl

module _ {C : Type 0} (random_range : ℕ → ℕ → ℕ) (params : RetryParams) (sender : ResultExpectation)
    (retry sleep slot c : ℕ) (cs : Bytes) (port : ℕ) (to : NodeAddress) (cmd : Cmd)
    (route : InternalSingleNodeRouting C) (u32 : params.number_of_retries ≤ 4294967295)
    (waits : wait_time_for_retry random_range params (suc retry) ≡ ok sleep)
    (remaining : retry < params.number_of_retries) (small : slot ≤ u16_max)
    (readable : IsReadable c cs port) where
  abbrev target_address : NodeAddress
  target_address = record { host = c ∷ cs; port = port }

  -- The request, routed by `route` on its `retry`-th attempt.
  abbrev routed : ℕ → InternalSingleNodeRouting C → PendingRequest C
  routed n r = record { retry = n; sender = sender; cmd = command cmd (single_node r) }

  abbrev Follows : ServerError → (NodeAddress → Redirect) → PollFlushAction → Type 0
  Follows e how action =
      choose_response random_range params (node to) (success (single (server_error e)))
        (routed retry route)
      ≡ ok (record {
        retry = some (immediately (routed (suc retry) (redirect (how target_address) route)));
        action = action;
        sent = [];
      })

  choose_response-planned :
      (e : ServerError) (how : NodeAddress → Redirect) (p : Plan) (action : PollFlushAction)
      → requires_action e ≡ true
      → plan (node to) (retry_method (server e)) ≡ (p, action)
      → retry_as p (server e) sleep (routed (suc retry) route)
        ≡ some (immediately (routed (suc retry) (redirect (how target_address) route)))
      → Follows e how action
  unfolding choose_response choose_for error_of error_of_response error_of_value
      is_error_that_requires_action extract_error unwrap_err choose_by_error choose_retry
      retry_or_send u32_succ
  choose_response-planned e how p action acts planned follows =
      rw
        (
          acts,
          lt→ltb retry 4294967295 (omega arith),
          waits,
          lt→ltb retry params.number_of_retries remaining,
          planned,
          follows,
        )
        refl

  redirection-known :
      (k : ServerErrorKind)
      → redirection k slot target_address
        ≡ known k (some (to_decimal slot ++ b' ' ∷ display target_address))
  unfolding error_line
  redirection-known k = err_parser-error_line k (some _)

  retry_as-redirection :
      (how : NodeAddress → Redirect) (k : ServerErrorKind)
      → (k ≡ Server.moved) ⊎ (k ≡ Server.ask)
      → set_redirect
          (redirect_of how (redirect_node (server (redirection k slot target_address))))
          (routed retry route).cmd
        ≡ command cmd (single_node (redirect (how target_address) route))
  unfolding set_redirect redirected
  retry_as-redirection how k which =
      rw (redirect_of-redirection how k slot c cs port which small readable) refl

  -- A request to a single node that the node answers with `MOVED slot host:port` or `ASK slot host:port`
  -- goes at once to the node at that address, and the slots are read anew after `MOVED`, if retries
  -- remain and their wait does not overflow, the slot and the port have 16 bits, and the host is a word
  -- that begins with no `[` and ends with no `]`. The number of retries is a `u32`.
  pub choose_response-redirection :
      Follows (redirection Server.moved slot target_address) moved rebuild_slots
      × Follows (redirection Server.ask slot target_address) ask nothing
  unfolding retry_as plan requires_action retry_method
  choose_response-redirection = (
    choose_response-planned _ moved follow_moved rebuild_slots
        (rw (redirection-known Server.moved) refl) (rw (redirection-known Server.moved) refl)
        (rw (retry_as-redirection moved Server.moved (inl refl)) refl),
    choose_response-planned _ ask follow_ask nothing (rw (redirection-known Server.ask) refl)
        (rw (redirection-known Server.ask) refl)
        (rw (retry_as-redirection ask Server.ask (inr refl)) refl),
  )

-- ===== src/Cluster/Blocking/Loop.antt =====
-- The loop of `ClusterConnection::request` for a single node:
-- redis/src/cluster_handling/sync_connection/mod.rs.
use redis_rs.Base.{ℕ, zero, suc, ◌==◌, Bool, true, false, ◌&&◌, Option, none, some, if◌then◌else◌}
use redis_rs.Errors.Server.{
  RetryMethod, reconnect, reconnect_from_initial_connections, ask_redirect, moved_redirect,
  refresh_slots_and_retry, wait_and_retry, no_retry, retry_immediately,
}
use redis_rs.Errors.Redis.{
  RedisError, ErrorKind, cluster_connection_not_found, kind, retry_method, redirect_node,
}
use redis_rs.Value.Defs.{Outcome, ok, err, panicked}
use redis_rs.Cluster.SlotMap.{NodeAddress, SlotMap}
use redis_rs.Cluster.MultiShard.{SingleNodeRoutingInfo}
use redis_rs.Cluster.Request.{Redirect, moved, ask, redirect_of}
use redis_rs.Cluster.Retry.{wait_time_for_retry}
use redis_rs.Cluster.Blocking.Connect.{
  Network, Client, Settings, and_then, in_world, refresh_slots, target, remove_connection,
  try_connect, connect_initial,
}

-- What an iteration of the loop comes to.
pub data Round (A : Type 0) : Type 0 where
  returned : Outcome A → Round A
  again : Option Redirect → Round A

module _ {W C A : Type 0} (network : Network W C A) (settings : Settings) where
  abbrev pub is_not_found : ErrorKind → Bool
  is_not_found cluster_connection_not_found = true
  is_not_found _ = false

  -- How the loop goes on once the slots are refreshed, or returns the error of that.
  unfoldable pub after_refresh :
      Option Redirect → Outcome SlotMap × Client W C → Round A × Client W C
  after_refresh redirected (ok slots, s) = (again redirected, s)
  after_refresh redirected (err e, s) = (returned (err e), s)
  after_refresh redirected (panicked, s) = (returned panicked, s)

  unfoldable pub sleep_for : Outcome ℕ → Client W C → Outcome ℕ × Client W C
  sleep_for (ok wait) s = (ok wait, record s { world = network.sleep wait s.world })
  sleep_for (err e) s = (err e, s)
  sleep_for panicked s = (panicked, s)

  unfoldable pub after_sleep : Outcome ℕ × Client W C → Round A × Client W C
  after_sleep (ok wait, s) = (again none, s)
  after_sleep (err e, s) = (returned (err e), s)
  after_sleep (panicked, s) = (returned panicked, s)

  -- The `match` on the retry method, with the number of this retry.
  unfoldable pub retry_by :
      RetryMethod → RedisError → NodeAddress → ℕ → Client W C → Round A × Client W C
  unfolding redirect_of redirect_node after_refresh refresh_slots sleep_for wait_time_for_retry
      after_sleep remove_connection try_connect and_then
  retry_by ask_redirect e addr retries s = (again (redirect_of ask (redirect_node e)), s)
  retry_by moved_redirect e addr retries s =
      after_refresh (redirect_of moved (redirect_node e)) (refresh_slots network settings s)
  retry_by wait_and_retry e addr retries s =
      after_sleep
        (sleep_for (wait_time_for_retry network.random_range settings.retry_params retries) s)
  retry_by refresh_slots_and_retry e addr retries s = after_refresh none (
      and_then
        (sleep_for (wait_time_for_retry network.random_range settings.retry_params retries) s)
        (λ wait s'. refresh_slots network settings s'))
  retry_by reconnect e addr retries s = (
    again none,
    if settings.auto_reconnect
        then try_connect network settings addr
            (record s { connections = remove_connection addr s.connections })
        else s,
  )
  retry_by no_retry e addr retries s = (returned (err e), s)
  retry_by retry_immediately e addr retries s = (again none, s)
  retry_by reconnect_from_initial_connections e addr retries s =
      (again none, if settings.auto_reconnect then try_connect network settings addr s else s)

  unfoldable pub retry_or_return :
      ℕ → RedisError → NodeAddress → Outcome SlotMap × Client W C → Round A × Client W C
  unfolding retry_by retry_method
  retry_or_return retries e addr (ok slots, s) =
      if retries == settings.retry_params.number_of_retries
      then (returned (err e), s)
      else retry_by (retry_method e) e addr (suc retries) s
  retry_or_return retries e addr (err e', s) = (returned (err e'), s)
  retry_or_return retries e addr (panicked, s) = (returned panicked, s)

  -- What follows on the answer of the node.
  unfoldable pub after_attempt : ℕ → NodeAddress → Outcome A × Client W C → Round A × Client W C
  unfolding kind connect_initial retry_or_return
  after_attempt retries addr (ok a, s) = (returned (ok a), s)
  after_attempt retries addr (panicked, s) = (returned panicked, s)
  after_attempt retries addr (err e, s) = retry_or_return retries e addr (
      if is_not_found (kind e) && settings.auto_reconnect
      then connect_initial network settings settings.initial_nodes s
      else (ok s.slots, s))

  unfoldable pub send_to : C → Client W C → Outcome A × Client W C
  send_to conn s = in_world network settings s (network.send conn s.world)

  unfoldable pub attempt : ℕ → (NodeAddress × Outcome C) × Client W C → Round A × Client W C
  unfolding after_attempt and_then send_to
  attempt retries ((addr, conn), s) = after_attempt retries addr (and_then (conn, s) send_to)

  unfoldable pub continue_with :
      (Option Redirect → Client W C → Option (Outcome A × Client W C))
      → Round A × Client W C
      → Option (Outcome A × Client W C)
  continue_with next (returned r, s) = some (r, s)
  continue_with next (again redirected, s) = next redirected s

  -- The loop, with fuel, from an iteration with the given number of retries behind it.
  unfoldable pub request_loop :
      ℕ → SingleNodeRoutingInfo → ℕ → Option Redirect → Client W C → Option (Outcome A × Client W C)
  unfolding attempt target continue_with
  request_loop zero routing retries redirected s = none
  request_loop (suc fuel) routing retries redirected s =
      continue_with (request_loop fuel routing (suc retries))
        (attempt retries (target network settings redirected routing s))

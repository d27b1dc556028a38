-- ===== src/Cluster/Blocking/Ends.antt =====
-- A request on a blocking connection to a cluster ends, and does not panic:
-- redis/src/cluster_handling/sync_connection/mod.rs.
use redis_rs.Base.{
  ℕ, zero, suc, ◌+◌, ◌≤◌, ◌<◌, ◌==◌, ◌≡◌, refl, Bool, true, false, Option, none, some, Bool-cases,
  inl, inr, arith, if◌then◌else◌,
}
use redis_rs.Errors.Server.{
  RetryMethod, reconnect, reconnect_from_initial_connections, ask_redirect, moved_redirect,
  refresh_slots_and_retry, wait_and_retry, no_retry, retry_immediately,
}
use redis_rs.Errors.Redis.{RedisError, retry_method}
use redis_rs.Value.Defs.{Outcome, ok, err, panicked}
use redis_rs.Cluster.SlotMap.{NodeAddress, SlotMap}
use redis_rs.Cluster.MultiShard.{SingleNodeRoutingInfo}
use redis_rs.Cluster.Request.{Redirect}
use redis_rs.Cluster.Retry.{wait_time_for_retry}
use redis_rs.Cluster.Blocking.Connect.{Network, Client, Settings, and_then, target, connect_initial}
use redis_rs.Cluster.Blocking.Loop.{
  Round, returned, again, after_refresh, sleep_for, after_sleep, retry_by, retry_or_return,
  after_attempt, send_to, attempt, continue_with, request_loop,
}
use redis_rs.Cluster.Blocking.Calm.{
  Calm, answered, failed, AllCalm, IsCalm, and_then-Calm, refresh_slots-Calm, target-Calm,
  connect_initial-Calm,
}

data CalmRound {A : Type 0} : Round A → Type 0 where
  ends : {r : Outcome A} → Calm r → CalmRound (returned r)
  goes_on : {redirected : Option Redirect} → CalmRound (again redirected)

-- A run that comes to an answer or an error.
abbrev pub Returns : {S A : Type 0} → Option (Outcome A × S) → Type 0
Returns {S} {A} run = (r : Outcome A) × (s : S) × (run ≡ some (r, s)) × Calm r

module _ {W C A : Type 0} (network : Network W C A) (settings : Settings)
    (network_calm : IsCalm network) where
  -- The waits that the loop may come to.
  abbrev pub WaitsCalm : Type 0
  WaitsCalm =
      (n : ℕ)
      → n ≤ settings.retry_params.number_of_retries
      → Calm (wait_time_for_retry network.random_range settings.retry_params n)

  after_refresh-Calm :
      (redirected : Option Redirect) (x : Outcome SlotMap × Client W C)
      → Calm (x.0)
      → CalmRound ((after_refresh network settings redirected x).0)
  unfolding after_refresh
  after_refresh-Calm redirected (ok slots, s) c = goes_on
  after_refresh-Calm redirected (err e, s) c = ends failed
  after_refresh-Calm redirected (panicked, s) c = elim c [ ]

  sleep_for-Calm :
      (wait : Outcome ℕ) (s : Client W C) → Calm wait → Calm ((sleep_for network settings wait s).0)
  unfolding sleep_for
  sleep_for-Calm (ok wait) s c = answered
  sleep_for-Calm (err e) s c = failed
  sleep_for-Calm panicked s c = elim c [ ]

  after_sleep-Calm :
      (x : Outcome ℕ × Client W C) → Calm (x.0) → CalmRound ((after_sleep network settings x).0)
  unfolding after_sleep
  after_sleep-Calm (ok wait, s) c = goes_on
  after_sleep-Calm (err e, s) c = ends failed
  after_sleep-Calm (panicked, s) c = elim c [ ]

  retry_by-Calm :
      (method : RetryMethod) (e : RedisError) (addr : NodeAddress) (n : ℕ) (s : Client W C)
      → Calm (wait_time_for_retry network.random_range settings.retry_params n)
      → CalmRound ((retry_by network settings method e addr n s).0)
  unfolding retry_by
  retry_by-Calm ask_redirect e addr n s w = goes_on
  retry_by-Calm moved_redirect e addr n s w =
      after_refresh-Calm _ _ (refresh_slots-Calm network settings network_calm s)
  retry_by-Calm wait_and_retry e addr n s w = after_sleep-Calm _ (sleep_for-Calm _ s w)
  retry_by-Calm refresh_slots_and_retry e addr n s w = after_refresh-Calm none _ (
      and_then-Calm _ _ (sleep_for-Calm _ s w)
        (λ wait s'. refresh_slots-Calm network settings network_calm s'))
  retry_by-Calm reconnect e addr n s w = goes_on
  retry_by-Calm no_retry e addr n s w = ends failed
  retry_by-Calm retry_immediately e addr n s w = goes_on
  retry_by-Calm reconnect_from_initial_connections e addr n s w = goes_on

  -- An end without a panic, or one more retry than so far, if that is allowed.
  data IsFair (retries : ℕ) : Round A → Type 0 where
    fair_end : {r : Outcome A} → Calm r → IsFair retries (returned r)
    fair_again :
        {redirected : Option Redirect}
        → retries < settings.retry_params.number_of_retries
        → IsFair retries (again redirected)

  CalmRound-IsFair :
      (retries : ℕ) (r : Round A)
      → retries < settings.retry_params.number_of_retries
      → CalmRound r
      → IsFair retries r
  CalmRound-IsFair retries (returned r) h (ends c) = fair_end c
  CalmRound-IsFair retries (again redirected) h goes_on = fair_again h

  module _ (waits_calm : WaitsCalm) (nodes_calm : AllCalm settings.initial_nodes) where
    retry_or_return-IsFair :
        (retries : ℕ) (e : RedisError) (addr : NodeAddress) (x : Outcome SlotMap × Client W C)
        → retries ≤ settings.retry_params.number_of_retries
        → Calm (x.0)
        → IsFair retries ((retry_or_return network settings retries e addr x).0)
    unfolding retry_or_return
    retry_or_return-IsFair retries e addr (ok slots, s) h c =
        elim (Bool-cases (retries == settings.retry_params.number_of_retries)) [
          | inl same ↦ rw same (fair_end failed)
          | inr other ↦ rw other (
              CalmRound-IsFair retries _ (ground arith) (
                retry_by-Calm (retry_method e) e addr (suc retries) s
                  (waits_calm (suc retries) (ground arith))))
        ]
    retry_or_return-IsFair retries e addr (err e', s) h c = fair_end failed
    retry_or_return-IsFair retries e addr (panicked, s) h c = elim c [ ]

    reconnected-Calm :
        (b : Bool) (s : Client W C)
        → Calm (
            (if b
              then connect_initial network settings settings.initial_nodes s
              else (ok s.slots, s)).0)
    reconnected-Calm true s =
        connect_initial-Calm network settings network_calm settings.initial_nodes s nodes_calm
    reconnected-Calm false s = answered

    after_attempt-IsFair :
        (retries : ℕ) (addr : NodeAddress) (x : Outcome A × Client W C)
        → retries ≤ settings.retry_params.number_of_retries
        → Calm (x.0)
        → IsFair retries ((after_attempt network settings retries addr x).0)
    unfolding after_attempt
    after_attempt-IsFair retries addr (ok a, s) h c = fair_end answered
    after_attempt-IsFair retries addr (err e, s) h c =
        retry_or_return-IsFair retries e addr _ h (reconnected-Calm _ s)
    after_attempt-IsFair retries addr (panicked, s) h c = elim c [ ]

    attempt-IsFair :
        (retries : ℕ) (x : (NodeAddress × Outcome C) × Client W C)
        → retries ≤ settings.retry_params.number_of_retries
        → Calm (x.0.1)
        → IsFair retries ((attempt network settings retries x).0)
    unfolding attempt send_to
    attempt-IsFair retries ((addr, conn), s) h c =
        after_attempt-IsFair retries addr (and_then (conn, s) (send_to network settings)) h
          (and_then-Calm _ _ c (λ conn' s'. network_calm.send conn' s'.world))

    continue_with-Returns :
        (retries : ℕ) (next : Option Redirect → Client W C → Option (Outcome A × Client W C))
        (x : Round A × Client W C)
        → IsFair retries (x.0)
        → (retries < settings.retry_params.number_of_retries
            → (redirected : Option Redirect) (s : Client W C) → Returns (next redirected s))
        → Returns (continue_with network settings next x)
    unfolding continue_with
    continue_with-Returns retries next (returned r, s) (fair_end c) h = (r, s, refl, c)
    continue_with-Returns retries next (again redirected, s) (fair_again l) h = h l redirected s

    request_loop-Returns :
        (fuel : ℕ) (routing : SingleNodeRoutingInfo) (retries : ℕ) (redirected : Option Redirect)
        (s : Client W C)
        → retries ≤ settings.retry_params.number_of_retries
        → settings.retry_params.number_of_retries < retries + fuel
        → Returns (request_loop network settings fuel routing retries redirected s)
    unfolding request_loop
    request_loop-Returns zero routing retries redirected s h k = ground arith
    request_loop-Returns (suc fuel) routing retries redirected s h k =
        continue_with-Returns retries _
          (attempt network settings retries (target network settings redirected routing s))
          (attempt-IsFair retries (target network settings redirected routing s) h
            (target-Calm network settings network_calm redirected routing s))
          (λ l redirected' s'.
            request_loop-Returns fuel routing (suc retries) redirected' s' (omega arith)
              (omega arith))

    -- With one more iteration than the number of retries, the loop of a request to a single node comes to
    -- an answer or an error, and does not panic, whatever the nodes answer: if nothing that goes over the
    -- network panics, and no wait before a retry nor the reading of an initial node's address does.
    pub request_loop-ends :
        (routing : SingleNodeRoutingInfo) (s : Client W C)
        → Returns (
            request_loop network settings
              (suc settings.retry_params.number_of_retries)
              routing
              0
              none
              s)
    request_loop-ends routing s =
        request_loop-Returns (suc settings.retry_params.number_of_retries) routing 0 none s
          (omega arith) (omega arith)

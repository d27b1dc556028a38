-- ===== src/Cluster/Blocking/Calm.antt =====
-- What the client does to have a connection never panics, if the network does not:
-- redis/src/cluster_handling/sync_connection/mod.rs.
use redis_rs.Base.{Option, none, some, List, [], ◌∷◌}
use redis_rs.Errors.Redis.{RedisError}
use redis_rs.Value.Defs.{Value, Outcome, ok, err, panicked, ◌>>=◌}
use redis_rs.Value.Methods.{extract_error, extract_error-first_error, first_error, errors_in}
use redis_rs.Cluster.Slot.{Route}
use redis_rs.Cluster.SlotMap.{NodeAddress}
use redis_rs.Cluster.MultiShard.{
  SingleNodeRoutingInfo, random, random_primary, specific_node, by_address,
}
use redis_rs.Cluster.Request.{Redirect, moved, ask}
use redis_rs.Cluster.Blocking.Connect.{
  Network, Client, Settings, and_then, refresh_slots, occupied_or_connect, by_slot_or_random,
  get_connection_by_addr, get_random_connection_or_error, random_or_error, get_connection,
  at_address, ask_first, target, connect_initial, new_address,
}

-- An answer or an error.
pub data Calm {A : Type 0} : Outcome A → Type 0 where
  answered : {a : A} → Calm (ok a)
  failed : {e : RedisError} → Calm (err e)

pub data AllCalm {A : Type 0} : List (Outcome A) → Type 0 where
  no_more : AllCalm []
  calm : {r : Outcome A} {rs : List (Outcome A)} → Calm r → AllCalm rs → AllCalm (r ∷ rs)

-- Nothing that goes over the network panics.
pub record IsCalm {W C A : Type 0} (network : Network W C A) : Type 0 where
  pub connect : (addr : NodeAddress) (w : W) → Calm ((network.connect addr w).0)
  pub send : (conn : C) (w : W) → Calm ((network.send conn w).0)
  pub send_asking : (conn : C) (w : W) → Calm ((network.send_asking conn w).0)
  pub create_new_slots : (w : W) → Calm ((network.create_new_slots w).0)

pub and_then-Calm :
    {S A B : Type 0} (x : Outcome A × S) (next : A → S → Outcome B × S)
    → Calm (x.0)
    → ((a : A) (s : S) → Calm ((next a s).0))
    → Calm ((and_then x next).0)
unfolding and_then
and_then-Calm (ok a, s) next c h = h a s
and_then-Calm (err e, s) next c h = failed
and_then-Calm (panicked, s) next c h = elim c [ ]

module _ {W C A : Type 0} (network : Network W C A) (settings : Settings)
    (network_calm : IsCalm network) where
  pub refresh_slots-Calm : (s : Client W C) → Calm ((refresh_slots network settings s).0)
  unfolding refresh_slots
  refresh_slots-Calm s =
      and_then-Calm _ _ (network_calm.create_new_slots s.world) (λ slots s'. answered)

  occupied_or_connect-Calm :
      (addr : NodeAddress) (o : Option C) (s : Client W C)
      → Calm ((occupied_or_connect network settings addr o s).0)
  unfolding occupied_or_connect
  occupied_or_connect-Calm addr (some conn) s = answered
  occupied_or_connect-Calm addr none s =
      and_then-Calm _ _ (network_calm.connect addr s.world) (λ conn s'. answered)

  get_connection_by_addr-Calm :
      (addr : NodeAddress) (s : Client W C)
      → Calm ((get_connection_by_addr network settings addr s).0)
  unfolding get_connection_by_addr
  get_connection_by_addr-Calm addr s = occupied_or_connect-Calm addr _ s

  extract_error-Calm : (v : Value) (conn : C) → Calm (do v' ← extract_error v; ok conn)
  unfolding first_error
  extract_error-Calm v conn =
      rw (extract_error-first_error v)
        (elim (errors_in v) as (λ es. Calm (do v' ← first_error es v; ok conn)) [
          | [] ↦ answered
          | (e ∷ es) ↦ failed
        ])

  ask_first-Calm : (conn : C) (s : Client W C) → Calm ((ask_first network settings conn s).0)
  unfolding ask_first
  ask_first-Calm conn s =
      and_then-Calm _ _ (network_calm.send_asking conn s.world) (λ v s'. extract_error-Calm v conn)

  random_or_error-Calm :
      (o : Option (NodeAddress × C)) → Calm ((random_or_error network settings o).1)
  unfolding random_or_error
  random_or_error-Calm none = failed
  random_or_error-Calm (some (addr, conn)) = answered

  at_address-Calm :
      (addr : NodeAddress) (x : Outcome C × Client W C)
      → Calm (x.0)
      → Calm ((at_address network settings addr x).0.1)
  unfolding at_address
  at_address-Calm addr (r, s) c = c

  by_address-Calm :
      (addr : NodeAddress) (s : Client W C)
      → Calm
          ((at_address network settings addr (get_connection_by_addr network settings addr s)).0.1)
  by_address-Calm addr s =
      at_address-Calm addr (get_connection_by_addr network settings addr s)
        (get_connection_by_addr-Calm addr s)

  by_slot_or_random-Calm :
      (o : Option NodeAddress) (s : Client W C)
      → Calm ((by_slot_or_random network settings o s).0.1)
  unfolding by_slot_or_random get_random_connection_or_error
  by_slot_or_random-Calm (some addr) s = by_address-Calm addr s
  by_slot_or_random-Calm none s = random_or_error-Calm _

  get_connection-Calm :
      (route : Route) (s : Client W C) → Calm ((get_connection network settings route s).0.1)
  unfolding get_connection
  get_connection-Calm route s = by_slot_or_random-Calm _ s

  pub target-Calm :
      (redirected : Option Redirect) (routing : SingleNodeRoutingInfo) (s : Client W C)
      → Calm ((target network settings redirected routing s).0.1)
  unfolding target get_random_connection_or_error
  target-Calm (some (moved addr)) routing s = by_address-Calm addr s
  target-Calm (some (ask addr)) routing s =
      at_address-Calm addr
        (and_then (get_connection_by_addr network settings addr s) (ask_first network settings))
        (and_then-Calm _ _ (get_connection_by_addr-Calm addr s) ask_first-Calm)
  target-Calm none random s = random_or_error-Calm _
  target-Calm none (specific_node route) s = get_connection-Calm route s
  target-Calm none (by_address host port) s = by_address-Calm (new_address host port) s
  target-Calm none random_primary s = get_connection-Calm network.new_random_primary s

  pub connect_initial-Calm :
      (nodes : List (Outcome NodeAddress)) (s : Client W C)
      → AllCalm nodes
      → Calm ((connect_initial network settings nodes s).0)
  unfolding connect_initial
  connect_initial-Calm [] s no_more = refresh_slots-Calm s
  connect_initial-Calm (ok addr ∷ nodes) s (calm c cs) = connect_initial-Calm nodes _ cs
  connect_initial-Calm (err e ∷ nodes) s (calm c cs) = failed
  connect_initial-Calm (panicked ∷ nodes) s (calm c cs) = elim c [ ]

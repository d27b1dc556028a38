-- ===== src/Cluster/Blocking/Connect.antt =====
-- The connections of a blocking client of a cluster: `refresh_slots`, `get_connection`,
-- `get_connection_by_addr` and `get_random_connection_or_error` of
-- redis/src/cluster_handling/sync_connection/mod.rs, and the choice of a node in `request`. What goes
-- over the network is an interface: connecting to a node, asking it whether it is there, sending to it, and
-- reading the slots. `W` is the rest of the world, `C` the type of the connections, `A` that of an answer.
use redis_rs.Base.{ℕ, Bytes, Bool, Option, none, some, List, [], ◌∷◌, ◌++◌, if◌then◌else◌}
use redis_rs.Value.Defs.{Value, Outcome, ok, err, panicked, ◌>>=◌}
use redis_rs.Value.Methods.{extract_error}
use redis_rs.Cluster.Slot.{Route}
use redis_rs.Cluster.SlotMap.{
  NodeAddress, Replicas, SlotAddrs, SlotMap, Strategy, address_eq, all_nodes_of,
  slot_addr_for_route,
}
use redis_rs.Cluster.SlotRangeMap.{values}
use redis_rs.Cluster.MultiShard.{
  SingleNodeRoutingInfo, random, random_primary, specific_node, by_address,
}
use redis_rs.Cluster.Request.{Redirect, moved, ask}
use redis_rs.Cluster.Connections.{no_connections}
use redis_rs.Cluster.Retry.{RetryParams}

-- `connect`, `check_connection`, `Input::send`, the ASKING command, `create_new_slots` and the sleep;
-- the random choices; and what sorts addresses and drops those that are there twice.
pub record Network (W C A : Type 0) : Type 0 where
  pub connect : NodeAddress → W → Outcome C × W
  pub check_connection : C → W → Bool × W
  pub send : C → W → Outcome A × W
  pub send_asking : C → W → Outcome Value × W
  pub create_new_slots : W → Outcome SlotMap × W
  pub sleep : ℕ → W → W
  pub choose : List (NodeAddress × C) → Option (NodeAddress × C)
  pub choose_replica : Replicas → NodeAddress
  pub new_random_primary : Route
  pub random_range : ℕ → ℕ → ℕ
  pub sort_and_dedup : List NodeAddress → List NodeAddress

pub record Client (W C : Type 0) : Type 0 where
  pub world : W
  pub connections : List (NodeAddress × C)
  pub slots : SlotMap

-- What stands in `ClusterConnection` and is not changed by a request. Of an initial node, the address that
-- its `ConnectionAddr` is read as.
pub record Settings : Type 0 where
  pub initial_nodes : List (Outcome NodeAddress)
  pub auto_reconnect : Bool
  pub retry_params : RetryParams
  pub routing_strategy : Option Strategy

-- `NodeAddress::default`.
abbrev pub default_address : NodeAddress
default_address = record { host = []; port = 0 }

-- `NodeAddress::new`.
abbrev pub new_address : Bytes → ℕ → NodeAddress
new_address host port = record { host = host; port = port }

module _ {C : Type 0} where
  unfoldable pub find_connection : NodeAddress → List (NodeAddress × C) → Option C
  unfolding address_eq
  find_connection addr [] = none
  find_connection addr ((a, conn) ∷ entries) =
      let rest = find_connection addr entries in if address_eq addr a then some conn else rest

  -- `HashMap::remove` and `HashMap::insert`.
  unfoldable pub remove_connection : NodeAddress → List (NodeAddress × C) → List (NodeAddress × C)
  unfolding address_eq
  remove_connection addr [] = []
  remove_connection addr ((a, conn) ∷ entries) =
      let rest = remove_connection addr entries in
      if address_eq addr a then entries else (a, conn) ∷ rest

  unfoldable pub insert_connection :
      NodeAddress → C → List (NodeAddress × C) → List (NodeAddress × C)
  unfolding remove_connection
  insert_connection addr conn entries = (addr, conn) ∷ remove_connection addr entries

-- The next step, unless there was an error.
unfoldable pub and_then : {S A B : Type 0} → Outcome A × S → (A → S → Outcome B × S) → Outcome B × S
and_then (ok a, s) next = next a s
and_then (err e, s) next = (err e, s)
and_then (panicked, s) next = (panicked, s)

unfoldable pub flatten_nodes : List SlotAddrs → List NodeAddress
unfolding all_nodes_of
flatten_nodes [] = []
flatten_nodes (a ∷ addrs) = all_nodes_of a ++ flatten_nodes addrs

unfoldable pub all_nodes : SlotMap → List NodeAddress
unfolding values flatten_nodes
all_nodes slots = flatten_nodes (values slots)

module _ {W C A : Type 0} (network : Network W C A) (settings : Settings) where
  abbrev pub in_world : {B : Type 0} → Client W C → B × W → B × Client W C
  in_world s (b, world) = (b, record s { world = world })

  -- A connection that was made, unless it does not answer.
  unfoldable pub if_checked : C → Bool × W → Option C × W
  if_checked conn (checked, w) = (if checked then some conn else none, w)

  unfoldable pub check_new : Outcome C × W → Option C × W
  unfolding if_checked
  check_new (ok conn, w) = if_checked conn (network.check_connection conn w)
  check_new (_, w) = (none, w)

  unfoldable pub connect_checked : NodeAddress → W → Option C × W
  unfolding check_new
  connect_checked addr w = check_new (network.connect addr w)

  unfoldable pub kept_or_new : NodeAddress → Option C × W → Option C × W
  unfolding connect_checked
  kept_or_new addr (some conn, w) = (some conn, w)
  kept_or_new addr (none, w) = connect_checked addr w

  -- The connection that `refresh_slots` keeps to a node, or makes.
  unfoldable pub refreshed_connection : NodeAddress → Option C → W → Option C × W
  unfolding if_checked kept_or_new connect_checked
  refreshed_connection addr none w = connect_checked addr w
  refreshed_connection addr (some conn) w =
      kept_or_new addr (if_checked conn (network.check_connection conn w))

  abbrev pub cons_found : NodeAddress → Option C → List (NodeAddress × C) → List (NodeAddress × C)
  cons_found addr none entries = entries
  cons_found addr (some conn) entries = (addr, conn) ∷ entries

  unfoldable pub refresh_connections :
      List NodeAddress → List (NodeAddress × C) → W → List (NodeAddress × C) × W
  unfolding refreshed_connection find_connection
  refresh_connections [] old w = ([], w)
  refresh_connections (a ∷ addrs) old w =
      let first = refreshed_connection a (find_connection a old) w in
      let rest = refresh_connections addrs old first.1 in (cons_found a first.0 rest.0, rest.1)

  -- The addresses are sorted and each stands once, so that each connection is taken at most once.
  unfoldable pub refresh_slots : Client W C → Outcome SlotMap × Client W C
  unfolding and_then all_nodes refresh_connections
  refresh_slots s = and_then (in_world s (network.create_new_slots s.world)) (λ slots s'.
      let made =
        refresh_connections (network.sort_and_dedup (all_nodes slots)) s'.connections s'.world in
      (ok slots, record { world = made.1; connections = made.0; slots = slots }))

  -- The entry of the map, which is filled if it is vacant.
  unfoldable pub occupied_or_connect : NodeAddress → Option C → Client W C → Outcome C × Client W C
  unfolding and_then insert_connection
  occupied_or_connect addr (some conn) s = (ok conn, s)
  occupied_or_connect addr none s =
      and_then (in_world s (network.connect addr s.world)) (λ conn s'.
        (ok conn, record s' { connections = insert_connection addr conn s'.connections }))

  unfoldable pub get_connection_by_addr : NodeAddress → Client W C → Outcome C × Client W C
  unfolding find_connection occupied_or_connect
  get_connection_by_addr addr s = occupied_or_connect addr (find_connection addr s.connections) s

  unfoldable pub random_or_error : Option (NodeAddress × C) → NodeAddress × Outcome C
  random_or_error none = (default_address, err no_connections)
  random_or_error (some (addr, conn)) = (addr, ok conn)

  -- An address and what became of the connection to it.
  unfoldable pub at_address :
      NodeAddress → Outcome C × Client W C → (NodeAddress × Outcome C) × Client W C
  at_address addr (r, s) = ((addr, r), s)

  unfoldable pub get_random_connection_or_error :
      Client W C → (NodeAddress × Outcome C) × Client W C
  unfolding random_or_error
  get_random_connection_or_error s = (random_or_error (network.choose s.connections), s)

  unfoldable pub by_slot_or_random :
      Option NodeAddress → Client W C → (NodeAddress × Outcome C) × Client W C
  unfolding at_address get_connection_by_addr get_random_connection_or_error
  by_slot_or_random (some addr) s = at_address addr (get_connection_by_addr addr s)
  by_slot_or_random none s = get_random_connection_or_error s

  unfoldable pub get_connection : Route → Client W C → (NodeAddress × Outcome C) × Client W C
  unfolding slot_addr_for_route by_slot_or_random
  get_connection route s =
      by_slot_or_random
        (slot_addr_for_route network.choose_replica s.slots route settings.routing_strategy) s

  unfoldable pub ask_first : C → Client W C → Outcome C × Client W C
  unfolding and_then extract_error
  ask_first conn s =
      and_then (in_world s (network.send_asking conn s.world))
        (λ v s'. ((do v' ← extract_error v; ok conn), s'))

  unfoldable pub target :
      Option Redirect → SingleNodeRoutingInfo → Client W C → (NodeAddress × Outcome C) × Client W C
  unfolding at_address get_connection_by_addr and_then ask_first get_connection
      get_random_connection_or_error
  target (some (moved addr)) routing s = at_address addr (get_connection_by_addr addr s)
  target (some (ask addr)) routing s =
      at_address addr (and_then (get_connection_by_addr addr s) ask_first)
  target none random s = get_random_connection_or_error s
  target none (specific_node route) s = get_connection route s
  target none (by_address host port) s =
      let addr = new_address host port in at_address addr (get_connection_by_addr addr s)
  target none random_primary s = get_connection network.new_random_primary s

  -- Connects to a node, and keeps the connection if it answers.
  unfoldable pub keep_found : NodeAddress → Client W C → Option C × W → Client W C
  unfolding insert_connection
  keep_found addr s (none, w) = record s { world = w }
  keep_found addr s (some conn, w) = record s {
    world = w;
    connections = insert_connection addr conn s.connections;
  }

  unfoldable pub try_connect : NodeAddress → Client W C → Client W C
  unfolding keep_found connect_checked
  try_connect addr s = keep_found addr s (connect_checked addr s.world)

  unfoldable pub connect_initial :
      List (Outcome NodeAddress) → Client W C → Outcome SlotMap × Client W C
  unfolding refresh_slots try_connect
  connect_initial [] s = refresh_slots s
  connect_initial (ok addr ∷ nodes) s = connect_initial nodes (try_connect addr s)
  connect_initial (err e ∷ nodes) s = (err e, s)
  connect_initial (panicked ∷ nodes) s = (panicked, s)

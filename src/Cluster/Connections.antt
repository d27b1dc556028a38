-- ===== src/Cluster/Connections.antt =====
-- The connection that a request to a cluster is sent on: `ConnState`, `mark_reconnecting`,
-- `get_connection` and `get_random_connection` of redis/src/cluster_handling/async_connection/mod.rs.
-- The map of connections is the list of its entries. The random choice is a parameter, and so is what
-- a redirection gives, which connects to nodes.
pub mod Choice
pub mod Ready
pub mod Covers
use redis_rs.Base.{ℕ, Option, none, some, List, [], ◌∷◌, ◌++◌, if◌then◌else◌}
use redis_rs.Errors.Redis.{RedisError, general, cluster_connection_not_found}
use redis_rs.Value.Defs.{Outcome, ok, err}
use redis_rs.Cluster.Slot.{Route}
use redis_rs.Cluster.SlotMap.{
  NodeAddress, Replicas, SlotMap, Strategy, address_eq, slot_addr_for_route, shard_fallback_addrs,
}
use redis_rs.Cluster.Address.{display}
use redis_rs.Cluster.Request.{
  Redirect, InternalSingleNodeRouting, random, specific_node, by_address, connection, redirect,
}

pub data ConnState (C : Type 0) : Type 0 where
  connected : C → ConnState C
  reconnecting : C → ConnState C
  connecting : ConnState C

module _ {C : Type 0} where
  -- `ConnState::connected`.
  unfoldable pub connected_conn : ConnState C → Option C
  connected_conn (connected conn) = some conn
  connected_conn (reconnecting conn) = none
  connected_conn connecting = none

  -- `ConnState::connected_or_reconnecting`, and `into_conn`.
  unfoldable pub connected_or_reconnecting : ConnState C → Option C
  connected_or_reconnecting (connected conn) = some conn
  connected_or_reconnecting (reconnecting conn) = some conn
  connected_or_reconnecting connecting = none

abbrev pub no_connections : RedisError
no_connections = general cluster_connection_not_found "No connections found" none

abbrev pub ConnectionMap : Type 0 → Type 0
ConnectionMap C = List (NodeAddress × ConnState C)

module _ {C : Type 0} where
  abbrev and_then_connected : Option (ConnState C) → Option C
  and_then_connected none = none
  and_then_connected (some state) = connected_conn state

  unfoldable pub lookup : NodeAddress → ConnectionMap C → Option (ConnState C)
  unfolding address_eq
  lookup addr [] = none
  lookup addr ((a, state) ∷ entries) =
      let rest = lookup addr entries in if address_eq addr a then some state else rest

  -- `connections.get(&addr).and_then(ConnState::connected)`.
  unfoldable pub get_connected : NodeAddress → ConnectionMap C → Option C
  unfolding lookup connected_conn
  get_connected addr entries = and_then_connected (lookup addr entries)

  unfoldable pub lose : ConnState C → ConnState C
  lose (connected conn) = reconnecting conn
  lose (reconnecting conn) = reconnecting conn
  lose connecting = connecting

  unfoldable pub mark_reconnecting : ConnectionMap C → NodeAddress → ConnectionMap C
  unfolding address_eq lose
  mark_reconnecting [] addr = (addr, connecting) ∷ []
  mark_reconnecting ((a, state) ∷ entries) addr =
      let rest = mark_reconnecting entries addr in
      if address_eq addr a then (a, lose state) ∷ entries else (a, state) ∷ rest

  abbrev cons_connected : NodeAddress → Option C → List (NodeAddress × C) → List (NodeAddress × C)
  cons_connected addr none rest = rest
  cons_connected addr (some conn) rest = (addr, conn) ∷ rest

  -- What `get_random_connection` chooses from.
  unfoldable pub all_connected : ConnectionMap C → List (NodeAddress × C)
  unfolding connected_conn
  all_connected [] = []
  all_connected ((a, state) ∷ entries) =
      cons_connected a (connected_conn state) (all_connected entries)

  abbrev pub or_later : NodeAddress → Option C → Option (NodeAddress × C) → Option (NodeAddress × C)
  or_later addr none later = later
  or_later addr (some conn) later = some (addr, conn)

  -- The `find_map` over the candidates of the shard.
  unfoldable pub find_connected : List NodeAddress → ConnectionMap C → Option (NodeAddress × C)
  unfolding get_connected
  find_connected [] entries = none
  find_connected (a ∷ candidates) entries =
      or_later a (get_connected a entries) (find_connected candidates entries)

  -- The node that the routing prefers, if it is connected.
  unfoldable pub preferred_connection :
      Option NodeAddress → ConnectionMap C → Option (NodeAddress × C)
  unfolding get_connected
  preferred_connection none entries = none
  preferred_connection (some addr) entries = or_later addr (get_connected addr entries) none

  unfoldable pub found_or : Option (NodeAddress × C) → RedisError → Outcome (NodeAddress × C)
  found_or (some found) e = ok found
  found_or none e = err e

  abbrev pub or_else :
      Option (NodeAddress × C) → Option (NodeAddress × C) → Option (NodeAddress × C)
  or_else none later = later
  or_else (some found) later = some found

  module _ (choose : List (NodeAddress × C) → Option (NodeAddress × C))
      (choose_replica : Replicas → NodeAddress)
      (get_redirected_connection : Redirect → Outcome (NodeAddress × C)) where
    unfoldable pub get_random_connection : ConnectionMap C → Option (NodeAddress × C)
    unfolding all_connected
    get_random_connection entries = choose (all_connected entries)

    -- The branch for a route: the lock is given back in between, so that the random connection is
    -- chosen from the map `later`.
    unfoldable pub connection_for_route :
        ConnectionMap C
        → SlotMap
        → Option Strategy
        → ConnectionMap C
        → Route
        → Outcome (NodeAddress × C)
    unfolding slot_addr_for_route shard_fallback_addrs preferred_connection find_connected
        get_random_connection found_or
    connection_for_route entries slots strategy later route =
        found_or
          (or_else
            (preferred_connection (slot_addr_for_route choose_replica slots route strategy) entries)
            (or_else (find_connected (shard_fallback_addrs slots route) entries)
              (get_random_connection later)))
          no_connections

    unfoldable pub get_connection :
        ConnectionMap C
        → SlotMap
        → Option Strategy
        → ConnectionMap C
        → InternalSingleNodeRouting C
        → Outcome (NodeAddress × C)
    unfolding get_random_connection connection_for_route get_connected found_or display
    get_connection entries slots strategy later random =
        found_or (get_random_connection entries) no_connections
    get_connection entries slots strategy later (specific_node route) =
        connection_for_route entries slots strategy later route
    get_connection entries slots strategy later (connection identifier conn) = ok (identifier, conn)
    get_connection entries slots strategy later (redirect r previous) = get_redirected_connection r
    get_connection entries slots strategy later (by_address addr) =
        found_or (or_later addr (get_connected addr entries) none) (
          general cluster_connection_not_found "Requested connection not found"
            (some (display addr)))

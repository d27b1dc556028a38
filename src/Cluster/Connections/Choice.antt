-- ===== src/Cluster/Connections/Choice.antt =====
-- Which connection a route is given.
use redis_rs.Base.{
  ◌≡◌, refl, sym, ◌⊎◌, inl, inr, Option, none, some, List, [], ◌∷◌, Option-cases, subst,
}
use mathlib.Core.List.{Memᴰ}
use redis_rs.Value.Defs.{Outcome, ok, err}
use redis_rs.Cluster.Slot.{Route}
use redis_rs.Cluster.SlotMap.{
  NodeAddress, Replicas, SlotMap, Strategy, slot_addr_for_route, shard_fallback_addrs,
}
use redis_rs.Cluster.Request.{Redirect}
use redis_rs.Cluster.Connections.{
  ConnectionMap, get_connected, all_connected, or_else, find_connected, preferred_connection,
  found_or, no_connections, get_random_connection, connection_for_route,
}
use redis_rs.Cluster.SlotRangeMap.{get}
use redis_rs.Cluster.SlotMap.{nodes}
use redis_rs.Cluster.SlotMap.Choice.{IsFair}
use redis_rs.Cluster.Connections.{connected}
use redis_rs.Cluster.Connections.Ready.{
  Entry, Disconnected, get_connected-Entry, get_connected-Disconnected, all_connected-Mem,
  Mem-all_connected,
}
use redis_rs.Cluster.Connections.Covers.{tried, Covers, tried-Covers}

module _ {C : Type 0} where
  -- None of the nodes is connected.
  abbrev NoneConnected : List NodeAddress → ConnectionMap C → Type 0
  NoneConnected [] entries = Unit
  NoneConnected (a ∷ nodes) entries = Disconnected a entries × NoneConnected nodes entries

  -- One of the nodes is connected, by the connection found, and none before it.
  abbrev FirstConnected : List NodeAddress → ConnectionMap C → NodeAddress × C → Type 0
  FirstConnected [] entries found = ⊥
  FirstConnected (a ∷ nodes) entries found =
      ((found.0 ≡ a) × Entry a (connected found.1) entries)
      ⊎ (Disconnected a entries × FirstConnected nodes entries found)

  find_connected-result :
      (nodes : List NodeAddress) (entries : ConnectionMap C)
      → ((find_connected nodes entries ≡ none) × NoneConnected nodes entries)
        ⊎ ((found : NodeAddress × C) × (find_connected nodes entries ≡ some found)
            × FirstConnected nodes entries found)
  unfolding find_connected
  find_connected-result [] entries = inl (refl, tt)
  find_connected-result (a ∷ nodes) entries = elim (Option-cases (get_connected a entries)) [
    | inr (conn, here) ↦
        inr ((a, conn), rw here refl, inl (refl, get_connected-Entry a conn entries here))
    | inl gone ↦ elim (find_connected-result nodes entries) [
      | inl (nowhere, all) ↦ inl (rw gone nowhere, (get_connected-Disconnected a entries gone, all))
      | inr (found, there, first) ↦
          inr (found, rw gone there, inr (get_connected-Disconnected a entries gone, first))
    ]
  ]

  tried-find :
      (preferred : Option NodeAddress) (candidates : List NodeAddress) (entries : ConnectionMap C)
      (last : Option (NodeAddress × C))
      → or_else
          (preferred_connection preferred entries)
          (or_else (find_connected candidates entries) last)
        ≡ or_else (find_connected (tried preferred candidates) entries) last
  unfolding preferred_connection find_connected
  tried-find none candidates entries last = refl
  tried-find (some addr) candidates entries last =
      elim (Option-cases (get_connected addr entries)) [
        | inl gone ↦ rw gone refl
        | inr (conn, here) ↦ rw here refl
      ]

  -- A choice that returns one of what it is offered, if there is anything.
  abbrev pub IsChoice : (List (NodeAddress × C) → Option (NodeAddress × C)) → Type 0
  IsChoice choose =
      (xs : List (NodeAddress × C))
      → ((choose xs ≡ none) × (xs ≡ []))
        ⊎ ((x : NodeAddress × C) × (choose xs ≡ some x) × Memᴰ x xs)

  -- The connection of the first of the nodes that is connected; any that is connected, if none of
  -- them is; an error, if none is at all.
  abbrev pub IsFirst :
      List NodeAddress → ConnectionMap C → ConnectionMap C → Outcome (NodeAddress × C) → Type 0
  IsFirst nodes entries later result =
      ((found : NodeAddress × C) × (result ≡ ok found)
        × (FirstConnected nodes entries found
            ⊎ (NoneConnected nodes entries × Memᴰ (found.0, connected found.1) later)))
      ⊎ ((result ≡ err no_connections)
          × NoneConnected nodes entries
          × ((a : NodeAddress) (conn : C) → Memᴰ (a, connected conn) later → ⊥))

  nothing_in : {x : NodeAddress × C} → Memᴰ x [] → ⊥
  nothing_in m = elim m [ ]

  found_or-IsFirst :
      (choose : List (NodeAddress × C) → Option (NodeAddress × C)) (nodes : List NodeAddress)
      (entries later : ConnectionMap C)
      → IsChoice choose
      → IsFirst nodes entries later (
          found_or
            (or_else (find_connected nodes entries) (choose (all_connected later)))
            no_connections)
  unfolding found_or
  found_or-IsFirst choose nodes entries later fair = elim (find_connected-result nodes entries) [
    | inr (found, there, first) ↦ rw there (inl (found, refl, inl first))
    | inl (nowhere, all) ↦ elim (fair (all_connected later)) [
      | inl (nothing, empty) ↦
          rw (nowhere, nothing)
            (inr (
              refl,
              all,
              λ a conn m.
                  nothing_in
                    (subst (λ l. Memᴰ (a, conn) l) empty (Mem-all_connected a conn later m)),
            ))
      | inr (found, chosen, mem) ↦
          rw (nowhere, chosen) (inl (found, refl, inr (all, all_connected-Mem found later mem)))
    ]
  ]

  connection_for_route-tried :
      (choose : List (NodeAddress × C) → Option (NodeAddress × C))
      (choose_replica : Replicas → NodeAddress)
      (get_redirected_connection : Redirect → Outcome (NodeAddress × C))
      (entries later : ConnectionMap C) (slots : SlotMap) (strategy : Option Strategy)
      (route : Route)
      → IsChoice choose
      → IsFirst
          (tried
            (slot_addr_for_route choose_replica slots route strategy)
            (shard_fallback_addrs slots route))
          entries
          later
          (connection_for_route choose choose_replica get_redirected_connection entries slots
            strategy later route)
  unfolding connection_for_route get_random_connection
  connection_for_route-tried choose choose_replica redirected entries later slots strategy route
        fair =
      let preferred = slot_addr_for_route choose_replica slots route strategy in
      let candidates = shard_fallback_addrs slots route in
      subst (λ o. IsFirst (tried preferred candidates) entries later (found_or o no_connections))
        (sym (tried-find preferred candidates entries (choose (all_connected later))))
        (found_or-IsFirst choose (tried preferred candidates) entries later fair)

  -- For a random choice that chooses one if there are any, and a choice of replicas and a strategy that
  -- choose among what they are offered: a request with a route is sent on the connection of the first
  -- node that is connected, of the one that the routing prefers and then others, which are together
  -- exactly the nodes of its shard that the route permits; if none of them is connected, on any that is
  -- when the lock is taken again; and it fails only if none is connected then. A connection that is
  -- being made anew does not count as connected.
  pub connection_for_route-IsFirst :
      (choose : List (NodeAddress × C) → Option (NodeAddress × C))
      (choose_replica : Replicas → NodeAddress)
      (get_redirected_connection : Redirect → Outcome (NodeAddress × C))
      (entries later : ConnectionMap C) (slots : SlotMap) (strategy : Option Strategy)
      (route : Route)
      → IsChoice choose
      → ((r : Replicas) → Memᴰ (choose_replica r) (nodes r))
      → IsFair strategy
      → (others : List NodeAddress) × IsFirst
          (tried (slot_addr_for_route choose_replica slots route strategy) others)
          entries
          later
          (connection_for_route choose choose_replica get_redirected_connection entries slots
            strategy later route)
        × Covers
            (get route.slot slots)
            route.slot_addr
            (tried (slot_addr_for_route choose_replica slots route strategy) others)
  connection_for_route-IsFirst choose choose_replica redirected entries later slots strategy route
        choice replica fair =
      (
        shard_fallback_addrs slots route,
        connection_for_route-tried choose choose_replica redirected entries later slots strategy
            route choice,
        tried-Covers choose_replica replica slots strategy fair route,
      )

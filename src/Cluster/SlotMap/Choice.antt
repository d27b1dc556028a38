-- ===== src/Cluster/SlotMap/Choice.antt =====
-- Which of a shard's nodes a route reaches.
use redis_rs.Base.{ℕ, refl, Option, none, some, List, [], ◌∷◌}
use mathlib.Core.List.{Memᴰ}
use redis_rs.Cluster.Slot.{SlotAddr, master, replica_optional, replica_required}
use redis_rs.Cluster.SlotMap.{
  NodeAddress, Replicas, nodes, ReadCandidates, any_node, replicas_only, SlotAddrs, Strategy,
  new_replicas, without_strategy, with_strategy, slot_addr,
}

-- The nodes that a route of a shard may reach: a read that requires a replica falls back to the primary
-- only in a shard without replicas.
unfoldable pub permitted : SlotAddr → SlotAddrs → List NodeAddress
permitted master a = a.primary ∷ []
permitted replica_optional a = a.primary ∷ a.replicas
permitted replica_required a = elim a.replicas [ [] ↦ a.primary ∷ [] | (r ∷ rs) ↦ r ∷ rs ]

-- The nodes that a strategy chooses from.
unfoldable pub offered : ReadCandidates → List NodeAddress
offered (any_node slot primary replicas) = primary ∷ nodes replicas
offered (replicas_only slot replicas) = nodes replicas

-- A strategy that chooses one of the nodes it is offered.
abbrev pub IsFair : Option Strategy → Type 0
IsFair none = Unit
IsFair (some route_read) = (c : ReadCandidates) → Memᴰ (route_read c) (offered c)

choice-permitted :
    (choose : Replicas → NodeAddress)
    → ((r : Replicas) → Memᴰ (choose r) (nodes r))
    → (p : NodeAddress) (rs : List NodeAddress) (slot : ℕ) (addr : SlotAddr)
    → (strategy : Option Strategy) → IsFair strategy
    → let a : SlotAddrs = record { primary = p; replicas = rs } in
      Memᴰ (slot_addr choose a slot addr strategy) (permitted addr a)
unfolding slot_addr permitted offered new_replicas without_strategy with_strategy
choice-permitted choose fair p rs slot master none s = Memᴰ.head refl
choice-permitted choose fair p rs slot replica_optional none s = Memᴰ.head refl
choice-permitted choose fair p [] slot replica_required none s = Memᴰ.head refl
choice-permitted choose fair p (r ∷ rs) slot replica_required none s =
    fair (record { first = r; rest = rs })
choice-permitted choose fair p [] slot master (some f) s = Memᴰ.head refl
choice-permitted choose fair p [] slot replica_optional (some f) s = Memᴰ.head refl
choice-permitted choose fair p [] slot replica_required (some f) s = Memᴰ.head refl
choice-permitted choose fair p (r ∷ rs) slot master (some f) s = Memᴰ.head refl
choice-permitted choose fair p (r ∷ rs) slot replica_optional (some f) s =
    s (any_node slot p (record { first = r; rest = rs }))
choice-permitted choose fair p (r ∷ rs) slot replica_required (some f) s =
    s (replicas_only slot (record { first = r; rest = rs }))

-- Whatever the strategy and the random choice, as long as each returns one of the nodes it is offered, a
-- request reaches a node of its shard that its route permits: the primary for a write, a replica for a
-- read that requires one unless the shard has none.
pub slot_addr-permitted :
    (choose : Replicas → NodeAddress)
    → ((r : Replicas) → Memᴰ (choose r) (nodes r))
    → (a : SlotAddrs) (slot : ℕ) (addr : SlotAddr) (strategy : Option Strategy) → IsFair strategy
    → Memᴰ (slot_addr choose a slot addr strategy) (permitted addr a)
slot_addr-permitted choose fair a = choice-permitted choose fair a.primary a.replicas

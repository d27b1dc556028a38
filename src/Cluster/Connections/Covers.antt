-- ===== src/Cluster/Connections/Covers.antt =====
-- The nodes that are tried for a route, against those that it permits.
use redis_rs.Base.{◌≡◌, refl, sym, ◌∙◌, subst, Option, none, some, List, [], ◌∷◌}
use mathlib.Core.List.{Memᴰ}
use mathlib.Core.List.Memᴰ
use redis_rs.Cluster.Slot.{SlotAddr, Route, master, replica_optional, replica_required}
use redis_rs.Cluster.SlotRangeMap.{get}
use redis_rs.Cluster.SlotMap.{
  NodeAddress, Replicas, SlotAddrs, SlotMap, Strategy, nodes, addrs_fallback, slot_addr,
  slot_addr_for_route, shard_fallback_addrs,
}
use redis_rs.Cluster.SlotMap.Choice.{permitted, IsFair, slot_addr-permitted}

-- The nodes in the order in which they are tried: the one that the routing prefers, and then others.
abbrev pub tried : Option NodeAddress → List NodeAddress → List NodeAddress
tried none candidates = candidates
tried (some addr) candidates = addr ∷ candidates

-- The nodes are, in some order, exactly those of the shard that the route permits, if there is a shard.
abbrev pub Covers : Option SlotAddrs → SlotAddr → List NodeAddress → Type 0
Covers none addr tried_nodes = tried_nodes ≡ []
Covers (some a) addr tried_nodes =
    (x : NodeAddress)
    → (Memᴰ x tried_nodes → Memᴰ x (permitted addr a))
      × (Memᴰ x (permitted addr a) → Memᴰ x tried_nodes)

Mem_only : (x p : NodeAddress) → Memᴰ x (p ∷ []) → x ≡ p
Mem_only x p (Memᴰ.head e) = e
Mem_only x p (Memᴰ.tail m) = elim m [ ]

fallback-permitted :
    (p : NodeAddress) (rs : List NodeAddress) (addr : SlotAddr) (x : NodeAddress)
    → let a : SlotAddrs = record { primary = p; replicas = rs } in
      Memᴰ x (addrs_fallback addr a) → Memᴰ x (permitted addr a)
unfolding addrs_fallback permitted
fallback-permitted p rs master x m = elim m [ ]
fallback-permitted p [] replica_optional x m = Memᴰ.head (Mem_only x p m)
fallback-permitted p (r ∷ rs) replica_optional x (Memᴰ.head e) = Memᴰ.tail (Memᴰ.head e)
fallback-permitted p (r ∷ rs) replica_optional x (Memᴰ.tail m) =
    wider (fallback-permitted p rs replica_optional x m)
  where
    wider : Memᴰ x (p ∷ rs) → Memᴰ x (p ∷ r ∷ rs)
    wider (Memᴰ.head e) = Memᴰ.head e
    wider (Memᴰ.tail n) = Memᴰ.tail (Memᴰ.tail n)
fallback-permitted p [] replica_required x m = elim m [ ]
fallback-permitted p (r ∷ rs) replica_required x m = m

-- The node that the routing prefers, if it is permitted, and the others are all that are permitted.
permitted-fallback :
    (p : NodeAddress) (rs : List NodeAddress) (addr : SlotAddr) (first x : NodeAddress)
    → let a : SlotAddrs = record { primary = p; replicas = rs } in
      Memᴰ first (permitted addr a)
      → Memᴰ x (permitted addr a)
      → Memᴰ x (first ∷ addrs_fallback addr a)
unfolding addrs_fallback permitted
permitted-fallback p rs master first x f m = Memᴰ.head (Mem_only x p m ∙ sym (Mem_only first p f))
permitted-fallback p rs replica_optional first x f (Memᴰ.head e) =
    Memᴰ.tail (Memᴰ.append_right rs (Memᴰ.head e))
permitted-fallback p rs replica_optional first x f (Memᴰ.tail m) =
    Memᴰ.tail (Memᴰ.append_left (p ∷ []) m)
permitted-fallback p [] replica_required first x f m =
    Memᴰ.head (Mem_only x p m ∙ sym (Mem_only first p f))
permitted-fallback p (r ∷ rs) replica_required first x f m = Memᴰ.tail m

pub tried-Covers :
    (choose_replica : Replicas → NodeAddress)
    → ((r : Replicas) → Memᴰ (choose_replica r) (nodes r))
    → (slots : SlotMap) (strategy : Option Strategy) → IsFair strategy
    → (route : Route)
    → Covers (get route.slot slots) route.slot_addr (
        tried
          (slot_addr_for_route choose_replica slots route strategy)
          (shard_fallback_addrs slots route))
unfolding slot_addr_for_route shard_fallback_addrs
tried-Covers choose_replica fair slots strategy s route =
    elim (get route.slot slots)
      as (λ o. Covers o route.slot_addr (
        tried
          (elim o [
            | none ↦ none
            | some a ↦ some (slot_addr choose_replica a route.slot route.slot_addr strategy)
          ])
          (elim o [ none ↦ [] | some a ↦ addrs_fallback route.slot_addr a ]))) [
            | none ↦ refl
            | some a ↦ λ x. (
              λ m. within a x m,
              λ m.
                  permitted-fallback a.primary a.replicas route.slot_addr
                    (slot_addr choose_replica a route.slot route.slot_addr strategy) x
                    (slot_addr-permitted choose_replica fair a route.slot route.slot_addr strategy
                      s)
                    m,
            )
          ]
  where
    within :
        (a : SlotAddrs) (x : NodeAddress)
        → Memᴰ x (
            slot_addr choose_replica a route.slot route.slot_addr strategy
            ∷ addrs_fallback route.slot_addr a)
        → Memᴰ x (permitted route.slot_addr a)
    within a x (Memᴰ.head e) =
        subst (λ y. Memᴰ y (permitted route.slot_addr a)) (sym e)
          (slot_addr-permitted choose_replica fair a route.slot route.slot_addr strategy s)
    within a x (Memᴰ.tail m) = fallback-permitted a.primary a.replicas route.slot_addr x m

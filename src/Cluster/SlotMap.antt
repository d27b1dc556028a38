-- ===== src/Cluster/SlotMap.antt =====
-- Which node serves a slot: redis/src/cluster_handling/slot_map.rs, with the `NodeAddress` of
-- redis/src/cluster_handling/mod.rs and the candidates of
-- redis/src/cluster_handling/read_routing/interface.rs. The random choice of `rand` is a parameter, and
-- so is the strategy, a trait object.
pub mod Owner
pub mod Choice
pub mod Snapshot
use redis_rs.Base.{
  ℕ, Bool, true, false, ◌&&◌, Option, none, some, List, [], ◌∷◌, ◌++◌, map, Bytes, bytes_eq, ◌==◌,
  if◌then◌else◌,
}
use redis_rs.Cluster.Slot.{Route, SlotAddr, master, replica_optional, replica_required}
use redis_rs.Cluster.SlotRangeMap.{Entry, SlotRangeMap, insert, get}
use redis_rs.Cluster.SlotRangeMap

pub record NodeAddress : Type 0 where
  pub host : Bytes
  pub port : ℕ

-- The derived `PartialEq` of `NodeAddress`.
unfoldable pub address_eq : NodeAddress → NodeAddress → Bool
unfolding bytes_eq
address_eq a b = bytes_eq a.host b.host && a.port == b.port

-- A slice that is not empty.
pub record Replicas : Type 0 where
  pub first : NodeAddress
  pub rest : List NodeAddress

-- `Replicas::new`.
unfoldable pub new_replicas : List NodeAddress → Option Replicas
new_replicas [] = none
new_replicas (a ∷ others) = some (record { first = a; rest = others })

-- `Replicas::iter`.
abbrev pub nodes : Replicas → List NodeAddress
nodes r = r.first ∷ r.rest

pub data ReadCandidates : Type 0 where
  any_node : ℕ → NodeAddress → Replicas → ReadCandidates
  replicas_only : ℕ → Replicas → ReadCandidates

pub record Shard : Type 0 where
  pub slot_ranges : List (ℕ × ℕ)
  pub primary : NodeAddress
  pub replicas : List NodeAddress

pub record SlotRange : Type 0 where
  pub start : ℕ
  pub end_slot : ℕ
  pub master_node : NodeAddress
  pub replica_nodes : List NodeAddress

pub record SlotAddrs : Type 0 where
  pub primary : NodeAddress
  pub replicas : List NodeAddress

-- `SlotAddrs::from_slot`.
unfoldable pub from_slot : SlotRange → SlotAddrs
from_slot r = record { primary = r.master_node; replicas = r.replica_nodes }

-- `SlotAddrs::into_iter`.
unfoldable pub all_nodes_of : SlotAddrs → List NodeAddress
all_nodes_of a = a.primary ∷ a.replicas

abbrev pub SlotMap : Type 0
SlotMap = SlotRangeMap SlotAddrs

unfoldable pub fill_slots : SlotMap → List SlotRange → SlotMap
unfolding insert from_slot
fill_slots m [] = m
fill_slots m (r ∷ rs) = fill_slots (insert r.start r.end_slot (from_slot r) m) rs

unfoldable pub from_slots : List SlotRange → SlotMap
from_slots ranges = fill_slots [] ranges

unfoldable pub clear : SlotMap → SlotMap
unfolding SlotRangeMap.clear
clear m = SlotRangeMap.clear m

unfoldable pub addrs_fallback : SlotAddr → SlotAddrs → List NodeAddress
addrs_fallback master a = []
addrs_fallback replica_optional a = a.replicas ++ (a.primary ∷ [])
addrs_fallback replica_required a = a.replicas

unfoldable pub shard_fallback_addrs : SlotMap → Route → List NodeAddress
unfolding get addrs_fallback
shard_fallback_addrs m r = elim (get r.slot m) [ none ↦ [] | some a ↦ addrs_fallback r.slot_addr a ]

abbrev pub Strategy : Type 0
Strategy = ReadCandidates → NodeAddress

module _ (choose_random : Replicas → NodeAddress) where
  unfoldable pub without_strategy : SlotAddrs → SlotAddr → NodeAddress
  unfolding new_replicas
  without_strategy a replica_required = elim (new_replicas a.replicas) [
    | none ↦ a.primary
    | some replicas ↦ choose_random replicas
  ]
  without_strategy a _ = a.primary

  unfoldable pub with_strategy : Strategy → ℕ → SlotAddr → NodeAddress → Replicas → NodeAddress
  with_strategy route_read slot master primary replicas = primary
  with_strategy route_read slot replica_optional primary replicas =
      route_read (any_node slot primary replicas)
  with_strategy route_read slot replica_required primary replicas =
      route_read (replicas_only slot replicas)

  unfoldable pub slot_addr : SlotAddrs → ℕ → SlotAddr → Option Strategy → NodeAddress
  unfolding without_strategy with_strategy new_replicas
  slot_addr a slot addr none = without_strategy a addr
  slot_addr a slot addr (some route_read) = elim (new_replicas a.replicas) [
    | none ↦ a.primary
    | some replicas ↦ with_strategy route_read slot addr a.primary replicas
  ]

  unfoldable pub slot_addr_for_route : SlotMap → Route → Option Strategy → Option NodeAddress
  unfolding get slot_addr
  slot_addr_for_route m r strategy = elim (get r.slot m) [
    | none ↦ none
    | some a ↦ some (slot_addr a r.slot r.slot_addr strategy)
  ]

  -- The items of the iterator, in order.
  unfoldable pub addresses_for_multi_slot :
      SlotMap → List (Route × List ℕ) → Option Strategy → List (Option NodeAddress)
  addresses_for_multi_slot m routes strategy = map (λ r. slot_addr_for_route m r.0 strategy) routes

-- ===== src/Cluster/RoundRobin.antt =====
-- Reads in turn: `RoundRobinReplicaStrategy` of
-- redis/src/cluster_handling/read_routing/round_robin_replica.rs. A shard's atomic counter, which the
-- ranges of the shard share, is an entry of a list of counters, and a range holds its index.
pub mod Turns
use redis_rs.Base.{
  ℕ, suc, ◌+◌, ◌%◌, Option, none, some, List, [], ◌∷◌, ◌++◌, length, get_elem?, set,
}
use redis_rs.Value.Defs.{Outcome, ok, panicked}
use redis_rs.Cluster.SlotRangeMap.{SlotRangeMap, insert_ranges, get}
use redis_rs.Cluster.SlotMap.{
  NodeAddress, Shard, Replicas, nodes, ReadCandidates, any_node, replicas_only,
}

-- The values of a `usize` of 64 bits, in which `fetch_add` wraps around.
abbrev pub counter_values : ℕ
counter_values = 18446744073709551616

pub record SlotCounters : Type 0 where
  pub slots : SlotRangeMap ℕ
  pub counters : List ℕ

unfoldable pub add_shards : List Shard → SlotCounters → SlotCounters
unfolding insert_ranges
add_shards [] state = state
add_shards (shard ∷ shards) state = add_shards shards (record {
  slots = insert_ranges (length state.counters) shard.slot_ranges state.slots;
  counters = state.counters ++ 0 ∷ [];
})

-- `on_topology_changed`, for the shards of the topology: every counter starts at 0.
unfoldable pub on_topology_changed : List Shard → SlotCounters
unfolding add_shards
on_topology_changed shards = add_shards shards (record { slots = []; counters = [] })

unfoldable pub slot_of : ReadCandidates → ℕ
slot_of (any_node slot primary replicas) = slot
slot_of (replicas_only slot replicas) = slot

unfoldable pub replicas_of : ReadCandidates → Replicas
replicas_of (any_node slot primary replicas) = replicas
replicas_of (replicas_only slot replicas) = replicas

-- `counter.fetch_add(1)` on the counter that the slot has, or 0.
unfoldable pub next_index : SlotCounters → Option ℕ → ℕ × SlotCounters
next_index state none = (0, state)
next_index state (some i) = elim (get_elem? state.counters i) [
  | none ↦ (0, state)
  | some n ↦ (n, record state { counters = set state.counters i ((n + 1) % counter_values) })
]

unfoldable pub node_at : List NodeAddress → ℕ → Outcome NodeAddress
node_at addresses index = elim (get_elem? addresses (index % length addresses)) [
  | none ↦ panicked
  | some a ↦ ok a
]

-- The node, and the counters after the read.
unfoldable pub route_read : SlotCounters → ReadCandidates → Outcome NodeAddress × SlotCounters
unfolding get slot_of replicas_of next_index node_at
route_read state c =
    let (index, state') = next_index state (get (slot_of c) state.slots) in
    (node_at (nodes (replicas_of c)) index, state')

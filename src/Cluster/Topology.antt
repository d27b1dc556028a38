-- ===== src/Cluster/Topology.antt =====
-- The slot ranges of a `CLUSTER SLOTS` reply: `parse_slots` of
-- redis/src/cluster_handling/topology.rs. The set of host names already seen only makes equal names
-- share their memory, and is left out.
pub mod RoundTrip
use redis_rs.Base.{
  ℕ, Bool, Option, none, some, List, [], ◌∷◌, String, Bytes, codes, one_of, bytes_eq, if◌then◌else◌,
}
use redis_rs.Value.Integer.{as_unsigned}
use redis_rs.Value.Defs.{Value, nil, int, bulk_string, array, to_list, Outcome, ok}
use redis_rs.Resp.Text.{from_utf8_lossy}
use redis_rs.Cluster.SlotMap.{NodeAddress, SlotRange}

-- The values of a `u16`.
abbrev pub u16_values : ℕ
u16_values = 65536

-- `hostname.is_empty() || is_wildcard_address(&hostname)`.
unfoldable pub is_unspecified : Bytes → Bool
unfolding one_of
is_unspecified host = one_of host ("" ∷ "0.0.0.0" ∷ "::" ∷ [])

unfoldable pub known_host : Bytes → Bytes → Option Bytes
unfolding is_unspecified bytes_eq
known_host answering host =
    if is_unspecified host
    then some answering
    else if bytes_eq host (codes "?")
    then none
    else some host

-- The host of a node, as its entry gives it.
unfoldable pub host_of : Bytes → Value → Option Bytes
unfolding known_host from_utf8_lossy
host_of answering (bulk_string ip) = known_host answering (from_utf8_lossy ip)
host_of answering nil = some answering
host_of answering _ = none

unfoldable pub address_of : Option Bytes → Value → Option NodeAddress
unfolding as_unsigned
address_of (some (c ∷ host)) (int port) =
    some (record { host = c ∷ host; port = as_unsigned u16_values port })
address_of _ _ = none

unfoldable pub node_address : Bytes → List Value → Option NodeAddress
unfolding host_of address_of
node_address answering (host ∷ port ∷ rest) = address_of (host_of answering host) port
node_address answering _ = none

-- `try_to_address`.
unfoldable pub try_to_address : Bytes → Value → Option NodeAddress
unfolding node_address to_list
try_to_address answering (array node) = node_address answering (to_list node)
try_to_address answering _ = none

-- `iterator.filter_map(try_to_address)`.
unfoldable pub addresses : Bytes → List Value → List NodeAddress
unfolding try_to_address
addresses answering [] = []
addresses answering (v ∷ vs) = elim (try_to_address answering v) [
  | none ↦ addresses answering vs
  | some a ↦ a ∷ addresses answering vs
]

-- The first node that has an address is the primary, those after it the replicas.
unfoldable pub range_from : Bytes → ℕ → ℕ → List Value → Option SlotRange
unfolding try_to_address addresses
range_from answering start end_slot [] = none
range_from answering start end_slot (v ∷ vs) = elim (try_to_address answering v) [
  | none ↦ range_from answering start end_slot vs
  | some a ↦ some (record {
    start = start;
    end_slot = end_slot;
    master_node = a;
    replica_nodes = addresses answering vs;
  })
]

-- An item with fewer than three entries, or without numbers in front, is skipped.
unfoldable pub slot_range : Bytes → List Value → Option SlotRange
unfolding range_from as_unsigned
slot_range answering (int start ∷ int end_slot ∷ node ∷ nodes) =
    range_from answering (as_unsigned u16_values start) (as_unsigned u16_values end_slot)
      (node ∷ nodes)
slot_range answering _ = none

-- The loop ends at the first item that is no array.
unfoldable pub slot_ranges : Bytes → List Value → List SlotRange
unfolding slot_range to_list
slot_ranges answering [] = []
slot_ranges answering (array entry ∷ items) = elim (slot_range answering (to_list entry)) [
  | none ↦ slot_ranges answering items
  | some r ↦ r ∷ slot_ranges answering items
]
slot_ranges answering (_ ∷ items) = []

unfoldable pub parse_slots : Value → Bytes → Outcome (List SlotRange)
unfolding slot_ranges to_list
parse_slots (array items) answering = ok (slot_ranges answering (to_list items))
parse_slots _ answering = ok []

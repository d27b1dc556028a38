-- ===== src/Cluster/Topology/RoundTrip.antt =====
-- The reply that describes some ranges is read as those ranges.
use redis_rs.Base.{
  ℕ, ◌%◌, ◌<◌, ◌≡◌, refl, ap, ap₂, ◌∙◌, false, some, List, [], ◌∷◌, map, Bytes, codes, bytes_eq,
  arith,
}
use redis_rs.Value.Integer.{pos, as_unsigned}
use redis_rs.Value.Defs.{Value, int, bulk_string, array, of_list, to_list-of_list, ok}
use redis_rs.Resp.Text.{from_utf8_lossy}
use redis_rs.Cluster.SlotMap.{NodeAddress, SlotRange}
use redis_rs.Cluster.Topology.{
  u16_values, is_unspecified, known_host, host_of, address_of, node_address, try_to_address,
  addresses, range_from, slot_range, slot_ranges, parse_slots,
}

-- What a server sends for a node, for a range and for all ranges.
unfoldable pub node_value : NodeAddress → Value
unfolding of_list
node_value a = array (of_list (bulk_string a.host ∷ int (pos a.port) ∷ []))

unfoldable pub range_value : SlotRange → Value
unfolding of_list node_value
range_value r = array (
    of_list (
      int (pos r.start)
      ∷ int (pos r.end_slot)
      ∷ node_value r.master_node
      ∷ map node_value r.replica_nodes))

unfoldable pub slots_value : List SlotRange → Value
unfolding of_list range_value
slots_value rs = array (of_list (map range_value rs))

-- A host that is text, names a node of its own and is known, and a port of 16 bits.
pub record IsAddress (a : NodeAddress) : Type 0 where
  pub is_text : from_utf8_lossy a.host ≡ a.host
  pub is_specified : is_unspecified a.host ≡ false
  pub is_known : bytes_eq a.host (codes "?") ≡ false
  pub port_fits : a.port < u16_values

abbrev pub AllAddresses : List NodeAddress → Type 0
AllAddresses [] = Unit
AllAddresses (a ∷ rest) = IsAddress a × AllAddresses rest

abbrev pub AllRanges : List SlotRange → Type 0
AllRanges [] = Unit
AllRanges (r ∷ rs) =
    ((r.start < u16_values)
      × (r.end_slot < u16_values)
      × IsAddress r.master_node
      × AllAddresses r.replica_nodes)
    × AllRanges rs

address_of-some :
    (host : Bytes) (port : ℕ)
    → is_unspecified host ≡ false
    → port < u16_values
    → address_of (some host) (int (pos port)) ≡ some (record { host = host; port = port })
unfolding address_of is_unspecified as_unsigned
address_of-some [] port h k = cc
address_of-some (c ∷ host) port h k =
    let e : port % u16_values ≡ port = omega arith in
    ap (λ p. some (record { host = c ∷ host; port = p })) e

try_to_address-node_value :
    (answering : Bytes) (a : NodeAddress)
    → IsAddress a
    → try_to_address answering (node_value a) ≡ some a
unfolding try_to_address node_value node_address host_of known_host
try_to_address-node_value answering a h =
    rw h.is_text
      (rw (h.is_specified, h.is_known) (address_of-some a.host a.port h.is_specified h.port_fits))

addresses-cons :
    (answering : Bytes) (v : Value) (vs : List Value) (a : NodeAddress)
    → try_to_address answering v ≡ some a
    → addresses answering (v ∷ vs) ≡ a ∷ addresses answering vs
unfolding addresses
addresses-cons answering v vs a h = rw (h, addresses) refl

addresses-node_value :
    (answering : Bytes) (nodes : List NodeAddress)
    → AllAddresses nodes
    → addresses answering (map node_value nodes) ≡ nodes
unfolding addresses
addresses-node_value answering [] h = refl
addresses-node_value answering (a ∷ nodes) h =
    addresses-cons answering (node_value a) (map node_value nodes) a
      (try_to_address-node_value answering a h.0)
    ∙ ap (◌∷◌ a) (addresses-node_value answering nodes h.1)

range_from-cons :
    (answering : Bytes) (start end_slot : ℕ) (v : Value) (vs : List Value) (a : NodeAddress)
    (reps : List NodeAddress)
    → try_to_address answering v ≡ some a
    → addresses answering vs ≡ reps
    → range_from answering start end_slot (v ∷ vs)
      ≡ some (record { start = start; end_slot = end_slot; master_node = a; replica_nodes = reps })
unfolding range_from
range_from-cons answering start end_slot v vs a reps h k = rw (h, k, range_from) refl

slot_range-range_value :
    (answering : Bytes) (r : SlotRange)
    → r.start < u16_values
    → r.end_slot < u16_values
    → IsAddress r.master_node
    → AllAddresses r.replica_nodes
    → slot_range answering (
        int (pos r.start)
        ∷ int (pos r.end_slot)
        ∷ node_value r.master_node
        ∷ map node_value r.replica_nodes)
      ≡ some r
unfolding slot_range as_unsigned
slot_range-range_value answering r s e m reps =
    let start : r.start % u16_values ≡ r.start = omega arith in
    let end_slot : r.end_slot % u16_values ≡ r.end_slot = omega arith in
    let vs = node_value r.master_node ∷ map node_value r.replica_nodes in
    ap₂ (λ a b. range_from answering a b vs) start end_slot
    ∙ range_from-cons answering r.start r.end_slot (node_value r.master_node)
        (map node_value r.replica_nodes) r.master_node r.replica_nodes
        (try_to_address-node_value answering r.master_node m)
        (addresses-node_value answering r.replica_nodes reps)

slot_ranges-cons :
    (answering : Bytes) (vs items : List Value) (r : SlotRange)
    → slot_range answering vs ≡ some r
    → slot_ranges answering (array (of_list vs) ∷ items) ≡ r ∷ slot_ranges answering items
unfolding slot_ranges
slot_ranges-cons answering vs items r h =
    rw (to_list-of_list vs, slot_ranges) (rw (h, slot_ranges) refl)

slot_ranges-range_value :
    (answering : Bytes) (rs : List SlotRange)
    → AllRanges rs
    → slot_ranges answering (map range_value rs) ≡ rs
unfolding slot_ranges range_value
slot_ranges-range_value answering [] h = refl
slot_ranges-range_value answering (r ∷ rs) h =
    let (s, e, m, reps) = h.0 in
    let entries =
      int (pos r.start)
      ∷ int (pos r.end_slot)
      ∷ node_value r.master_node
      ∷ map node_value r.replica_nodes in
    slot_ranges-cons answering entries (map range_value rs) r
      (slot_range-range_value answering r s e m reps)
    ∙ ap (◌∷◌ r) (slot_ranges-range_value answering rs h.1)

-- The reply in which a server lists some ranges is parsed as those ranges, whichever node answers, if
-- every host is text and names a node of its own, and slots and ports have 16 bits.
pub parse_slots-slots_value :
    (answering : Bytes) (rs : List SlotRange)
    → AllRanges rs
    → parse_slots (slots_value rs) answering ≡ ok rs
unfolding parse_slots slots_value
parse_slots-slots_value answering rs h =
    rw (to_list-of_list (map range_value rs)) (ap ok (slot_ranges-range_value answering rs h))

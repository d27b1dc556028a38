-- ===== src/Cluster/SlotMap/Snapshot.antt =====
-- The snapshot of the topology that read routing strategies are given: `SlotMap::topology` of
-- redis/src/cluster_handling/slot_map.rs, and the `ClusterTopology` of
-- redis/src/cluster_handling/read_routing/interface.rs. A `ShardBuilder` holds what its `Shard` holds.
use redis_rs.Base.{
  ℕ, ◌≡◌, refl, ap, sym, subst, inl, inr, true, false, Option, List, [], ◌∷◌, ◌++◌, if◌then◌else◌,
  Bool-cases, append_assoc, append-nil, ◌∙◌, bytes_eq_sound, arith,
}
use mathlib.Core.List.Permᴰ
use mathlib.Core.List.{Permᴰ}
use redis_rs.Cluster.SlotRangeMap.{SlotRangeMap, insert_ranges, iter, get}
use redis_rs.Cluster.SlotMap.{NodeAddress, Shard, SlotAddrs, SlotMap, address_eq}

abbrev pub ClusterTopology : Type 0
ClusterTopology = SlotRangeMap Shard

unfoldable pub insert_shards : List Shard → ClusterTopology → ClusterTopology
unfolding insert_ranges
insert_shards [] slots = slots
insert_shards (shard ∷ shards) slots =
    insert_shards shards (insert_ranges shard shard.slot_ranges slots)

unfoldable pub from_shards : List Shard → ClusterTopology
from_shards shards = insert_shards shards []

unfoldable pub shard_for_slot : ClusterTopology → ℕ → Option Shard
unfolding get
shard_for_slot slots slot = get slot slots

-- One round of the loop: the first builder with the same primary takes the range, else a new one.
unfoldable pub add_range : ℕ × ℕ → SlotAddrs → List Shard → List Shard
unfolding address_eq
add_range range addrs [] =
    record { slot_ranges = range ∷ []; primary = addrs.primary; replicas = addrs.replicas } ∷ []
add_range range addrs (b ∷ builders) =
    let rest = add_range range addrs builders in
    if address_eq b.primary addrs.primary
    then record {
      slot_ranges = b.slot_ranges ++ (range ∷ []);
      primary = b.primary;
      replicas = b.replicas;
    }
      ∷ builders
    else b ∷ rest

unfoldable pub build_shards : List (ℕ × ℕ × SlotAddrs) → List Shard → List Shard
build_shards [] builders = builders
build_shards ((first, last, addrs) ∷ slots) builders =
    build_shards slots (add_range (first, last) addrs builders)

unfoldable pub topology : SlotMap → ClusterTopology
unfolding iter from_shards build_shards
topology m = from_shards (build_shards (iter m) [])

-- Ranges, each with the primary that serves it.
unfoldable pub with_primary : NodeAddress → List (ℕ × ℕ) → List (NodeAddress × (ℕ × ℕ))
with_primary p [] = []
with_primary p (range ∷ ranges) = (p, range) ∷ with_primary p ranges

-- The ranges of shards.
unfoldable pub served : List Shard → List (NodeAddress × (ℕ × ℕ))
unfolding with_primary
served [] = []
served (s ∷ shards) = with_primary s.primary s.slot_ranges ++ served shards

-- The ranges of a slot map.
unfoldable pub ranges_of : List (ℕ × ℕ × SlotAddrs) → List (NodeAddress × (ℕ × ℕ))
ranges_of [] = []
ranges_of ((first, last, addrs) ∷ slots) = (addrs.primary, (first, last)) ∷ ranges_of slots

pub address_eq_sound : (a b : NodeAddress) → address_eq a b ≡ true → a ≡ b
unfolding address_eq
address_eq_sound a b h =
    let hosts : a.host ≡ b.host = bytes_eq_sound a.host b.host (ground arith) in
    let ports : a.port ≡ b.port = ground arith in λ i. record { host = hosts i; port = ports i }

with_primary-append :
    (p : NodeAddress) (ranges more : List (ℕ × ℕ))
    → with_primary p (ranges ++ more) ≡ with_primary p ranges ++ with_primary p more
unfolding with_primary
with_primary-append p [] more = refl
with_primary-append p (r ∷ ranges) more = ap (λ l. (p, r) ∷ l) (with_primary-append p ranges more)

-- A builder that takes a range serves it too.
taken-perm :
    (p : NodeAddress) (range : ℕ × ℕ) (ranges : List (ℕ × ℕ))
    (others : List (NodeAddress × (ℕ × ℕ)))
    → Permᴰ
        (with_primary p (ranges ++ (range ∷ [])) ++ others)
        ((p, range) ∷ (with_primary p ranges ++ others))
unfolding with_primary
taken-perm p range ranges others =
    subst (λ l. Permᴰ l ((p, range) ∷ (with_primary p ranges ++ others)))
      (sym (
        ap (λ l. l ++ others) (with_primary-append p ranges (range ∷ []))
        ∙ append_assoc (with_primary p ranges) ((p, range) ∷ []) others))
      (Permᴰ.middle (p, range) (with_primary p ranges) others)

add_range-perm :
    (range : ℕ × ℕ) (addrs : SlotAddrs) (builders : List Shard)
    → Permᴰ (served (add_range range addrs builders)) ((addrs.primary, range) ∷ served builders)
unfolding add_range served with_primary
add_range-perm range addrs [] = Permᴰ.refl ((addrs.primary, range) ∷ [])
add_range-perm range addrs (b ∷ builders) = elim (Bool-cases (address_eq b.primary addrs.primary)) [
  | inl same ↦ rw same (
      subst
        (λ p.
          Permᴰ (served (record b { slot_ranges = b.slot_ranges ++ (range ∷ []) } ∷ builders))
            ((p, range) ∷ served (b ∷ builders)))
        (address_eq_sound b.primary addrs.primary same)
        (taken-perm b.primary range b.slot_ranges (served builders)))
  | inr other ↦ rw other (
      Permᴰ.trans
        (Permᴰ.append_left (with_primary b.primary b.slot_ranges)
          (add_range-perm range addrs builders))
        (Permᴰ.middle (addrs.primary, range) (with_primary b.primary b.slot_ranges)
          (served builders)))
]

build_shards-served :
    (slots : List (ℕ × ℕ × SlotAddrs)) (builders : List Shard)
    → Permᴰ (served (build_shards slots builders)) (ranges_of slots ++ served builders)
unfolding build_shards ranges_of
build_shards-served [] builders = Permᴰ.refl (served builders)
build_shards-served ((first, last, addrs) ∷ slots) builders =
    Permᴰ.trans (build_shards-served slots (add_range (first, last) addrs builders)) (
      Permᴰ.trans
        (Permᴰ.append_left (ranges_of slots) (add_range-perm (first, last) addrs builders))
        (Permᴰ.middle (addrs.primary, (first, last)) (ranges_of slots) (served builders)))

-- No shard of the list has the primary `p`.
abbrev Lacks : NodeAddress → List Shard → Type 0
Lacks p [] = Unit
Lacks p (s ∷ shards) = (address_eq p s.primary ≡ false) × Lacks p shards

-- No two shards have one primary.
abbrev pub IsDistinct : List Shard → Type 0
IsDistinct [] = Unit
IsDistinct (s ∷ shards) = Lacks s.primary shards × IsDistinct shards

add_range-Lacks :
    (p : NodeAddress) (range : ℕ × ℕ) (addrs : SlotAddrs) (builders : List Shard)
    → address_eq p addrs.primary ≡ false
    → Lacks p builders
    → Lacks p (add_range range addrs builders)
unfolding add_range
add_range-Lacks p range addrs [] e h = (e, tt)
add_range-Lacks p range addrs (b ∷ builders) e h =
    elim (Bool-cases (address_eq b.primary addrs.primary)) [
      | inl same ↦ rw same h
      | inr other ↦ rw other (h.0, add_range-Lacks p range addrs builders e h.1)
    ]

add_range-IsDistinct :
    (range : ℕ × ℕ) (addrs : SlotAddrs) (builders : List Shard)
    → IsDistinct builders
    → IsDistinct (add_range range addrs builders)
unfolding add_range
add_range-IsDistinct range addrs [] h = (tt, tt)
add_range-IsDistinct range addrs (b ∷ builders) h =
    elim (Bool-cases (address_eq b.primary addrs.primary)) [
      | inl same ↦ rw same h
      | inr other ↦ rw other (
        add_range-Lacks b.primary range addrs builders other h.0,
        add_range-IsDistinct range addrs builders h.1,
      )
    ]

build_shards-IsDistinct :
    (slots : List (ℕ × ℕ × SlotAddrs)) (builders : List Shard)
    → IsDistinct builders
    → IsDistinct (build_shards slots builders)
unfolding build_shards
build_shards-IsDistinct [] builders h = h
build_shards-IsDistinct ((first, last, addrs) ∷ slots) builders h =
    build_shards-IsDistinct slots (add_range (first, last) addrs builders)
      (add_range-IsDistinct (first, last) addrs builders h)

-- The shards of a snapshot have different primaries, and serve the ranges of the slot map, each once and
-- under its own primary.
pub build_shards-grouped :
    (m : SlotMap)
    → IsDistinct (build_shards (iter m) [])
      × Permᴰ (served (build_shards (iter m) [])) (ranges_of (iter m))
unfolding served
build_shards-grouped m = (
  build_shards-IsDistinct (iter m) [] tt,
  subst (λ l. Permᴰ (served (build_shards (iter m) [])) l) (append-nil (ranges_of (iter m)))
      (build_shards-served (iter m) []),
)

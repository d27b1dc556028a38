-- ===== src/Cluster/Slot.antt =====
-- Slots, routes and hash tags: `SlotAddr`, `Route`, `Slot` and `get_hashtag` of
-- redis/src/cluster_handling/routing.rs. The CRC-16 is that of the `crc16` crate, a parameter.
pub mod HashTag
use redis_rs.Base.{
  ℕ, zero, suc, ◌+◌, ◌-◌, ◌%◌, ◌<◌, ◌≡◌, refl, ◌≢◌, ◌↔◌, ap, sym, ◌∙◌, Bool, true, false, ◌&&◌,
  Option, none, some, List, [], ◌∷◌, ◌++◌, Bytes, length, take, drop, ◌==◌, ltb, if◌then◌else◌,
  position_of, arith, ==_iff, ◌⊎◌, inl, inr, Option-cases, Bool-cases, subst, take-length-append,
  ap₂, lt→ltb,
}

-- `SLOT_SIZE` of redis/src/cluster_handling/slot_map.rs.
abbrev pub slot_size : ℕ
slot_size = 16384

pub data SlotAddr : Type 0 where
  master replica_optional replica_required : SlotAddr

pub record Route : Type 0 where
  pub slot : ℕ
  pub slot_addr : SlotAddr

-- The derived `PartialEq` of `SlotAddr` and `Route`.
unfoldable pub addr_eq : SlotAddr → SlotAddr → Bool
addr_eq master master = true
addr_eq replica_optional replica_optional = true
addr_eq replica_required replica_required = true
addr_eq _ _ = false

unfoldable pub route_eq : Route → Route → Bool
unfolding addr_eq
route_eq r s = r.slot == s.slot && addr_eq r.slot_addr s.slot_addr

addr_eq_iff : (a b : SlotAddr) → (addr_eq a b ≡ true) ↔ (a ≡ b)
unfolding addr_eq
addr_eq_iff a b = ground arith

pub route_eq_sound : (r s : Route) → route_eq r s ≡ true → r ≡ s
unfolding route_eq
route_eq_sound r s h =
    let slots : r.slot ≡ s.slot = ground arith in
    let addrs : r.slot_addr ≡ s.slot_addr =
      (addr_eq_iff r.slot_addr s.slot_addr).0 (ground arith) in
    λ i. record { slot = slots i; slot_addr = addrs i }

pub route_eq_refl : (r : Route) → route_eq r r ≡ true
unfolding route_eq
route_eq_refl r = ground (arith, addr_eq_iff r.slot_addr r.slot_addr)

-- `Slot::new`: the slot number, if it is in range.
unfoldable pub new_slot : ℕ → Option ℕ
new_slot slot = if ltb slot slot_size then some slot else none

-- `key[from..to]`.
unfoldable pub slice : ℕ → ℕ → Bytes → Bytes
slice from to key = take (to - from) (drop from key)

non_empty : Bytes → Option Bytes
non_empty [] = none
non_empty (c ∷ cs) = some (c ∷ cs)

close_tag : Bytes → ℕ → Option ℕ → Option Bytes
close_tag key open_at none = none
close_tag key open_at (some close_at) = non_empty (slice (open_at + 1) (open_at + close_at) key)

open_tag : Bytes → Option ℕ → Option Bytes
open_tag key none = none
open_tag key (some open_at) = close_tag key open_at (position_of b'}' (drop open_at key))

unfoldable pub get_hashtag : Bytes → Option Bytes
unfolding position_of slice non_empty close_tag open_tag
get_hashtag key = open_tag key (position_of b'{' key)

hashed_part : Bytes → Option Bytes → Bytes
hashed_part key none = key
hashed_part key (some tag) = tag

module _ (crc16 : Bytes → ℕ) where
  -- `Slot::for_key`.
  unfoldable pub slot_for_key : Bytes → ℕ
  unfolding get_hashtag hashed_part
  slot_for_key key = crc16 (hashed_part key (get_hashtag key)) % slot_size

  -- `get_route`, with `Route::with_key`.
  unfoldable pub get_route : Bool → Bytes → Route
  unfolding slot_for_key
  get_route readonly key = record {
    slot = slot_for_key key;
    slot_addr = if readonly then replica_optional else master;
  }

  -- Every key has a slot that `Slot::new` accepts, whatever the checksum.
  pub new_slot-slot_for_key : (key : Bytes) → new_slot (slot_for_key key) ≡ some (slot_for_key key)
  unfolding new_slot slot_for_key
  new_slot-slot_for_key key =
      let in_range : slot_for_key key < slot_size = omega arith in rw (lt→ltb _ _ in_range)

-- ===== src/Cluster/SlotRangeMap.antt =====
-- redis/src/cluster_handling/slot_range_map.rs: values at ranges of slots. The `BTreeMap` from a range's
-- end to its start and value is the list of its entries in the order of their keys.
pub mod Lookup
use redis_rs.Base.{ℕ, Bool, Option, none, some, List, [], ◌∷◌, map, leb, ltb, ◌==◌, if◌then◌else◌}

-- The range `first ..= last`.
pub record Entry {ℓ} (V : Type ℓ) : Type ℓ where
  pub first : ℕ
  pub last : ℕ
  pub value : V

abbrev pub SlotRangeMap {ℓ} : Type ℓ → Type ℓ
SlotRangeMap V = List (Entry V)

module _ {ℓ} {V : Type ℓ} where
  -- `BTreeMap::insert` at the key `last`.
  unfoldable pub insert : ℕ → ℕ → V → SlotRangeMap V → SlotRangeMap V
  insert first last value [] = record { first = first; last = last; value = value } ∷ []
  insert first last value (e ∷ m) =
      if ltb last e.last
      then record { first = first; last = last; value = value } ∷ e ∷ m
      else if last == e.last
      then record { first = first; last = last; value = value } ∷ m
      else e ∷ insert first last value m

  -- The loop over the ranges of a shard, which insert one value for all of them.
  unfoldable pub insert_ranges : V → List (ℕ × ℕ) → SlotRangeMap V → SlotRangeMap V
  unfolding insert
  insert_ranges value [] m = m
  insert_ranges value ((first, last) ∷ ranges) m =
      insert_ranges value ranges (insert first last value m)

  -- `range(slot..).next()`: the first entry whose key is not below the slot.
  unfoldable pub next_from : ℕ → SlotRangeMap V → Option (Entry V)
  next_from slot [] = none
  next_from slot (e ∷ m) = if leb slot e.last then some e else next_from slot m

  -- `(slot >= *start).then_some(v)`.
  unfoldable pub value_at : ℕ → Option (Entry V) → Option V
  value_at slot none = none
  value_at slot (some e) = if leb e.first slot then some e.value else none

  unfoldable pub get : ℕ → SlotRangeMap V → Option V
  unfolding next_from value_at
  get slot m = value_at slot (next_from slot m)

  unfoldable pub values : SlotRangeMap V → List V
  values m = map (λ e. e.value) m

  -- The items of the iterator, in order.
  unfoldable pub iter : SlotRangeMap V → List (ℕ × ℕ × V)
  iter m = map (λ e. (e.first, e.last, e.value)) m

  unfoldable pub clear : SlotRangeMap V → SlotRangeMap V
  clear m = []

-- ===== src/Cluster/Routing/Safety.antt =====
-- What `for_routable` may answer, and that it ends.
use redis_rs.Base.{
  ℕ, zero, suc, ◌+◌, ◌≤◌, ◌<◌, ◌≡◌, refl, ◌⊎◌, inl, inr, true, Option, none, some, [], ◌∷◌, Bytes,
  codes, ltb, ltb→lt, Bool-cases, Option-cases, arith,
}
use mathlib.Core.List.{Permᴰ}
use redis_rs.Errors.Redis.{u16_max}
use redis_rs.Cluster.Slot.{
  Route, master, replica_optional, slot_size, new_slot, get_route, slot_for_key,
}
use redis_rs.Cluster.BaseRouting.{
  RouteBy, all_primaries, first_key, second_arg, second_arg_after_key_count, second_arg_slot,
  streams_index, third_arg_after_key_count, undefined, base_routing, MultiSlotArgPattern, keys_only,
  key_value_pairs, keys_and_last_arg, key_with_two_arg_triples,
}
use redis_rs.Cluster.BaseRouting
use redis_rs.Cluster.Properties.{is_readonly_cmd}
use redis_rs.Cluster.Routable.{Routable, command}
use redis_rs.Cluster.MultiShard.{
  Routes, RoutingInfo, single_node, multi_node, specific_node, random, random_primary, by_address,
  all_nodes, all_masters, multi_slot, Loop, done, shard_result, sharded, multi_shard,
}
use redis_rs.Cluster.Routing.Advance.{EachRoute, EachRoute-perm, Ends, shard_loop-Ends}
use redis_rs.Cluster.Routing.{
  u64_max, slot_route, number_of, for_key, for_key?, after_key_count, first_or_random, route_by,
  for_routable,
}

-- A slot that exists, and the primary unless the command only reads.
abbrev pub IsSafeRoute : Bytes → Route → Type 0
IsSafeRoute cmd r =
    (r.slot < slot_size)
    × ((r.slot_addr ≡ master) ⊎ ((r.slot_addr ≡ replica_optional) × (is_readonly_cmd cmd ≡ true)))

abbrev pub IsSafe : Bytes → RoutingInfo → Type 0
IsSafe cmd (single_node (specific_node r)) = IsSafeRoute cmd r
IsSafe cmd (single_node random) = Unit
IsSafe cmd (single_node random_primary) = Unit
IsSafe cmd (single_node (by_address host port)) = Unit
IsSafe cmd (multi_node all_nodes policy) = Unit
IsSafe cmd (multi_node all_masters policy) = Unit
IsSafe cmd (multi_node (multi_slot routes pattern) policy) = EachRoute (IsSafeRoute cmd) routes

abbrev pub IsSafeAnswer : Bytes → Option RoutingInfo → Type 0
IsSafeAnswer cmd none = Unit
IsSafeAnswer cmd (some info) = IsSafe cmd info

get_route-IsSafeRoute :
    (crc16 : Bytes → ℕ) (cmd key : Bytes)
    → IsSafeRoute cmd (get_route crc16 (is_readonly_cmd cmd) key)
unfolding get_route slot_for_key
get_route-IsSafeRoute crc16 cmd key = elim (Bool-cases (is_readonly_cmd cmd)) [
  | inl reads ↦ rw reads (omega arith, inr (refl, refl))
  | inr writes ↦ rw writes (omega arith, inl refl)
]

shard_result-IsSafeAnswer :
    (cmd : Bytes) (routes : Routes) (pattern : MultiSlotArgPattern)
    → EachRoute (IsSafeRoute cmd) routes
    → IsSafeAnswer cmd (shard_result routes pattern cmd)
unfolding shard_result
shard_result-IsSafeAnswer cmd [] pattern h = tt
shard_result-IsSafeAnswer cmd ((route, indices) ∷ []) pattern h = h.0
shard_result-IsSafeAnswer cmd (a ∷ b ∷ routes) pattern h = h

slot_route-IsSafeAnswer : (cmd : Bytes) (n : Option ℕ) → IsSafeAnswer cmd (slot_route n)
unfolding slot_route new_slot
slot_route-IsSafeAnswer cmd none = tt
slot_route-IsSafeAnswer cmd (some n) = elim (Bool-cases (ltb n slot_size)) [
  | inl within ↦ rw (within, IsSafeAnswer) (ltb→lt n slot_size within, inl refl)
  | inr beyond ↦ rw (beyond, IsSafeAnswer) tt
]

module _ (crc16 : Bytes → ℕ) (cmd : Bytes) where
  for_key?-IsSafeAnswer : (key : Option Bytes) → IsSafeAnswer cmd (for_key? crc16 cmd key)
  unfolding for_key? for_key
  for_key?-IsSafeAnswer none = tt
  for_key?-IsSafeAnswer (some key) = get_route-IsSafeRoute crc16 cmd key

  after_key_count-IsSafeAnswer :
      (n : Option ℕ) (key : Option Bytes) → IsSafeAnswer cmd (after_key_count crc16 cmd n key)
  unfolding after_key_count
  after_key_count-IsSafeAnswer none key = tt
  after_key_count-IsSafeAnswer (some zero) key = tt
  after_key_count-IsSafeAnswer (some (suc n)) key = for_key?-IsSafeAnswer key

  first_or_random-IsSafe : (key : Option Bytes) → IsSafe cmd (first_or_random crc16 cmd key)
  unfolding first_or_random for_key
  first_or_random-IsSafe none = tt
  first_or_random-IsSafe (some key) = get_route-IsSafeRoute crc16 cmd key

  -- The answer of `for_routable`: it has one, and it is safe.
  abbrev Answers : Loop (Option RoutingInfo) → Type 0
  Answers l = (answer : Option RoutingInfo) × (l ≡ done answer) × IsSafeAnswer cmd answer

  module _ (order : Routes → Routes)
      (reorders : (routes : Routes) → Permᴰ (order routes) routes) where
    sharded-Answers :
        (pattern : MultiSlotArgPattern) (l : Loop (Option Routes))
        → Ends (IsSafeRoute cmd) l
        → Answers (sharded crc16 order pattern cmd l)
    unfolding sharded
    sharded-Answers pattern l (none, e, h) = rw (e, Answers) (none, refl, tt)
    sharded-Answers pattern l (some routes, e, h) =
        rw (e, Answers)
          (
            shard_result (order routes) pattern cmd,
            refl,
            shard_result-IsSafeAnswer cmd (order routes) pattern
                (EachRoute-perm (IsSafeRoute cmd) (reorders routes) h),
          )

    route_by-Answers :
        (fuel : ℕ) (r : Routable) (n : ℕ) (by : RouteBy)
        → ((i : ℕ) → n ≤ i → r.arg_idx i ≡ none)
        → n ≤ fuel
        → Answers (route_by crc16 order (suc fuel) r cmd by)
    unfolding route_by multi_shard
    route_by-Answers fuel r n BaseRouting.all_nodes stops h = (_, refl, tt)
    route_by-Answers fuel r n all_primaries stops h = (_, refl, tt)
    route_by-Answers fuel r n (BaseRouting.multi_shard pattern) stops h =
        sharded-Answers pattern _ (
          shard_loop-Ends (IsSafeRoute cmd) crc16 (is_readonly_cmd cmd)
            (get_route-IsSafeRoute crc16 cmd) fuel r 1 n pattern 0 [] stops (omega arith) tt)
    route_by-Answers fuel r n BaseRouting.random stops h = (_, refl, tt)
    route_by-Answers fuel r n third_arg_after_key_count stops h =
        (_, refl, after_key_count-IsSafeAnswer (number_of u64_max (r.arg_idx 2)) (r.arg_idx 3))
    route_by-Answers fuel r n second_arg stops h = (_, refl, for_key?-IsSafeAnswer (r.arg_idx 2))
    route_by-Answers fuel r n second_arg_after_key_count stops h =
        (_, refl, after_key_count-IsSafeAnswer (number_of u64_max (r.arg_idx 1)) (r.arg_idx 2))
    route_by-Answers fuel r n streams_index stops h =
        elim (Option-cases (r.position (codes "STREAMS"))) [
          | inl missing ↦ rw (missing, Answers) (none, refl, tt)
          | inr (i, found) ↦
              rw (found, Answers) (_, refl, for_key?-IsSafeAnswer (r.arg_idx (i + 1)))
        ]
    route_by-Answers fuel r n second_arg_slot stops h =
        (_, refl, slot_route-IsSafeAnswer cmd (number_of u16_max (r.arg_idx 2)))
    route_by-Answers fuel r n first_key stops h = (_, refl, first_or_random-IsSafe (r.arg_idx 1))
    route_by-Answers fuel r n undefined stops h = (none, refl, tt)

-- `for_routable` ends with an answer when the fuel exceeds the number of arguments `n`; a route it names
-- has a slot that exists, and leads to the primary unless the command only reads.
pub for_routable-IsSafeAnswer :
    (crc16 : Bytes → ℕ) (order : Routes → Routes)
    → ((routes : Routes) → Permᴰ (order routes) routes)
    → (fuel : ℕ) (r : Routable) (cmd : Bytes) (n : ℕ) → ((i : ℕ) → n ≤ i → r.arg_idx i ≡ none)
    → n < fuel
    → command r ≡ some cmd
    → (answer : Option RoutingInfo) × (for_routable crc16 order fuel r ≡ done answer)
      × IsSafeAnswer cmd answer
unfolding for_routable
for_routable-IsSafeAnswer crc16 order reorders zero r cmd n stops h named = absurd (omega arith)
for_routable-IsSafeAnswer crc16 order reorders (suc fuel) r cmd n stops h named =
    rw (named, for_routable)
      (route_by-Answers crc16 cmd order reorders fuel r n (base_routing cmd) stops (omega arith))

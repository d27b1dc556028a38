-- ===== src/Cluster/Routing.antt =====
-- `RoutingInfo::for_routable` of redis/src/cluster_handling/routing.rs: where a request is sent.
pub mod Advance
pub mod Safety
use redis_rs.Base.{
  ℕ, zero, suc, ◌+◌, ◌≡◌, refl, Bool, true, false, Option, none, some, List, [], ◌∷◌, Bytes, codes,
  parse_unsigned, if◌then◌else◌, ◌==◌,
}
use redis_rs.Errors.Redis.{u16_max}
use redis_rs.Cluster.Slot.{Route, master, get_route, new_slot}
use redis_rs.Cluster.BaseRouting.{
  RouteBy, all_primaries, first_key, second_arg, second_arg_after_key_count, second_arg_slot,
  streams_index, third_arg_after_key_count, undefined, base_routing,
}
use redis_rs.Cluster.BaseRouting
use redis_rs.Cluster.Properties.{is_readonly_cmd}
use redis_rs.Cluster.ResponsePolicy.{for_command}
use redis_rs.Cluster.Routable.{Routable, command}
use redis_rs.Cluster.MultiShard.{
  Routes, RoutingInfo, single_node, multi_node, random, specific_node, all_nodes, all_masters, Loop,
  done, out_of_fuel, multi_shard,
}

-- The largest `u64`.
abbrev pub u64_max : ℕ
u64_max = 18446744073709551615

-- `Slot::new` of a parsed `u16`, as a route to the slot's primary.
unfoldable pub slot_route : Option ℕ → Option RoutingInfo
slot_route none = none
slot_route (some n) = elim (new_slot n) [
  | none ↦ none
  | some slot ↦ some (single_node (specific_node (record { slot = slot; slot_addr = master })))
]

-- `std::str::from_utf8(x).ok().and_then(|x| x.parse().ok())`: what is not UTF-8 is no number either.
unfoldable pub number_of : ℕ → Option Bytes → Option ℕ
number_of max none = none
number_of max (some text) = parse_unsigned max text

module _ (crc16 : Bytes → ℕ) where
  -- `RoutingInfo::for_key`.
  unfoldable pub for_key : Bytes → Bytes → RoutingInfo
  for_key cmd key = single_node (specific_node (get_route crc16 (is_readonly_cmd cmd) key))

  unfoldable pub for_key? : Bytes → Option Bytes → Option RoutingInfo
  unfolding for_key
  for_key? cmd none = none
  for_key? cmd (some key) = some (for_key cmd key)

  -- The branch of the commands that name their number of keys.
  unfoldable pub after_key_count : Bytes → Option ℕ → Option Bytes → Option RoutingInfo
  unfolding for_key?
  after_key_count cmd none key = none
  after_key_count cmd (some zero) key = some (single_node random)
  after_key_count cmd (some (suc n)) key = for_key? cmd key

  unfoldable pub first_or_random : Bytes → Option Bytes → RoutingInfo
  unfolding for_key
  first_or_random cmd none = single_node random
  first_or_random cmd (some key) = for_key cmd key

  module _ (order : Routes → Routes) where
    -- The `match` of `for_routable`.
    unfoldable pub route_by : ℕ → Routable → Bytes → RouteBy → Loop (Option RoutingInfo)
    route_by fuel r cmd BaseRouting.all_nodes = done (some (multi_node all_nodes (for_command cmd)))
    route_by fuel r cmd all_primaries = done (some (multi_node all_masters (for_command cmd)))
    route_by fuel r cmd (BaseRouting.multi_shard pattern) =
        multi_shard crc16 order fuel r cmd 1 pattern
    route_by fuel r cmd BaseRouting.random = done (some (single_node random))
    route_by fuel r cmd third_arg_after_key_count =
        done (after_key_count cmd (number_of u64_max (r.arg_idx 2)) (r.arg_idx 3))
    route_by fuel r cmd second_arg = done (for_key? cmd (r.arg_idx 2))
    route_by fuel r cmd second_arg_after_key_count =
        done (after_key_count cmd (number_of u64_max (r.arg_idx 1)) (r.arg_idx 2))
    route_by fuel r cmd streams_index = done (elim (r.position (codes "STREAMS")) [
      | none ↦ none
      | some i ↦ for_key? cmd (r.arg_idx (i + 1))
    ])
    route_by fuel r cmd second_arg_slot = done (slot_route (number_of u16_max (r.arg_idx 2)))
    route_by fuel r cmd first_key = done (some (first_or_random cmd (r.arg_idx 1)))
    route_by fuel r cmd undefined = done none

    unfoldable pub for_routable : ℕ → Routable → Loop (Option RoutingInfo)
    unfolding route_by
    for_routable fuel r = elim (command r) [
      | none ↦ done none
      | some cmd ↦ route_by fuel r cmd (base_routing cmd)
    ]

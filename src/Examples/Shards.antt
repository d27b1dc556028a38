-- ===== src/Examples/Shards.antt =====
-- The theorems on slots, routes and splits at concrete inputs.
use redis_rs.Base.{◌∙◌, get_elem?-none, to_ascii_uppercase}
use redis_rs.Base.{
  ℕ, suc, ◌+◌, ◌≤◌, ◌≡◌, refl, ap, inr, ◌↔◌, true, Option, none, some, List, [], ◌∷◌, map, Bytes,
  codes, one_of, get_elem?, arith,
}
use mathlib.Core.List.{Memᴰ, Permᴰ}
use mathlib.Core.List.Permᴰ
use redis_rs.Value.Defs.{array, of_list, ok, bulk_string}
use redis_rs.Value.Integer.{pos}
use redis_rs.Value.Defs.{int, item, end, panicked}
use redis_rs.Cluster.Aggregate.Panics.{combine_and_sort_array_results-total_len}
use redis_rs.Cmd.{new, write_arg, arg_idx}
use redis_rs.Cmd.Args.{write_args}
use redis_rs.Cmd.Index.{arg_idx-write_args}
use redis_rs.Cluster.Slot.{
  route_eq, Route, replica_optional, replica_required, slot_for_key, new_slot,
  new_slot-slot_for_key, get_hashtag, get_route,
}
use redis_rs.Cluster.Slot.HashTag.{HasTag, get_hashtag_iff}
use redis_rs.Cluster.Properties.{is_readonly_cmd}
use redis_rs.Cluster.BaseRouting.{keys_only}
use redis_rs.Cluster.ResponsePolicy.{for_command, combine_arrays}
use redis_rs.Cluster.Routable.{Routable, cmd_routable, command}
use redis_rs.Cluster.MultiShard.{
  Routes, RoutingInfo, done, shard_loop, multi_shard, command_for_multi_slot_indices,
}
use redis_rs.Cluster.MultiShard.Keys.{Each, HasRoute, all_indices, positions, shard_loop_complete}
use redis_rs.Cluster.Routing.{for_routable}
use redis_rs.Cluster.Routing.Safety.{IsSafeAnswer, for_routable-IsSafeAnswer}
use redis_rs.Cluster.Aggregate.{combine_and_sort_array_results}
use redis_rs.Cluster.Aggregate.Split.{server_reply, combine-multi_shard}
use redis_rs.Cluster.SlotRangeMap.{SlotRangeMap, iter, get}
use redis_rs.Cluster.SlotMap.{NodeAddress, SlotRange, SlotAddrs, slot_addr, from_slots}
use redis_rs.Cluster.SlotMap.Snapshot.{
  IsDistinct, build_shards, served, ranges_of, build_shards-grouped,
}
use redis_rs.Cluster.SlotMap.Owner.{owner, get-from_slots}
use redis_rs.Cluster.SlotMap.Choice.{permitted, slot_addr-permitted}

-- A checksum for the examples.
abbrev checksum : Bytes → ℕ
checksum [] = 0
checksum (c ∷ cs) = c

abbrev keys : List Bytes
keys = codes "a" ∷ codes "b" ∷ codes "a" ∷ []

-- `MGET a b a`.
abbrev mget : Routable
mget = cmd_routable (record {
  cmd = write_args new (codes "MGET" ∷ keys);
  found = get_elem? (codes "MGET" ∷ keys);
  is_found = arg_idx-write_args b'M' (codes "GET") keys;
})

same_order : Routes → Routes
same_order routes = routes

same_order-perm : (routes : Routes) → Permᴰ (same_order routes) routes
unfolding same_order
same_order-perm routes = Permᴰ.refl routes

mget-arg_idx : (j : ℕ) → mget.arg_idx j ≡ get_elem? (codes "MGET" ∷ keys) j
unfolding cmd_routable
mget-arg_idx j = refl

mget-key : (j : ℕ) → mget.arg_idx (1 + j) ≡ get_elem? keys j
mget-key j = ap mget.arg_idx (omega arith) ∙ mget-arg_idx (suc j)

mget-past : (i : ℕ) → 4 ≤ i → mget.arg_idx i ≡ none
mget-past i h = mget-arg_idx i ∙ get_elem?-none (codes "MGET" ∷ keys) i h

abbrev route_to : ℕ → Route
route_to slot = record { slot = slot; slot_addr = replica_optional }

abbrev mget_routes : Routes
mget_routes = (route_to 97, 0 ∷ 2 ∷ []) ∷ (route_to 98, 1 ∷ []) ∷ []

combine-multi_shard_example :
    combine_and_sort_array_results
      (map (λ e. server_reply bulk_string (command_for_multi_slot_indices mget e.1)) mget_routes)
      mget_routes
      keys_only
    ≡ ok (array (of_list (map bulk_string keys)))
unfolding multi_shard cmd_routable arg_idx write_args write_arg new same_order route_eq get_route
    is_readonly_cmd one_of for_command
combine-multi_shard_example =
    combine-multi_shard checksum same_order same_order-perm 4 mget (codes "MGET") (codes "MGET")
      keys mget_routes (some combine_arrays) bulk_string (omega arith) (mget-arg_idx 0) mget-key
      refl

for_routable-IsSafeAnswer_example :
    (answer : Option RoutingInfo) × (for_routable checksum same_order 5 mget ≡ done answer)
    × IsSafeAnswer (codes "MGET") answer
unfolding command cmd_routable arg_idx write_args write_arg new one_of to_ascii_uppercase
for_routable-IsSafeAnswer_example =
    for_routable-IsSafeAnswer checksum same_order same_order-perm 5 mget (codes "MGET") 4 mget-past
      (omega arith) refl

shard_loop_complete_example :
    (routes : Routes) × (shard_loop checksum 4 mget 1 true keys_only 0 [] ≡ done (some routes))
    × Each (HasRoute checksum true keys) routes
    × Permᴰ (all_indices routes) (positions 0 keys)
shard_loop_complete_example = shard_loop_complete checksum true 4 mget 1 keys (omega arith) mget-key

new_slot-slot_for_key_example :
    new_slot (slot_for_key checksum (codes "foo")) ≡ some (slot_for_key checksum (codes "foo"))
new_slot-slot_for_key_example = new_slot-slot_for_key checksum (codes "foo")

get_hashtag_iff_example :
    (get_hashtag (codes "x{user}1") ≡ some (codes "user"))
    ↔ HasTag (codes "x{user}1") (codes "user")
get_hashtag_iff_example = get_hashtag_iff (codes "x{user}1") (codes "user")

abbrev small_map : SlotRangeMap ℕ
small_map = record { first = 10; last = 19; value = 1 } ∷ []

abbrev node : ℕ → NodeAddress
node port = record { host = codes "h"; port = port }

abbrev ranges : List SlotRange
ranges =
    record { start = 100; end_slot = 199; master_node = node 1; replica_nodes = node 2 ∷ [] }
    ∷ record { start = 0; end_slot = 99; master_node = node 3; replica_nodes = [] }
    ∷ []

-- Two ranges have one primary.
abbrev scattered : List SlotRange
scattered =
    record { start = 200; end_slot = 209; master_node = node 3; replica_nodes = [] } ∷ ranges

get-from_slots_example : get 50 (from_slots ranges) ≡ owner 50 ranges
get-from_slots_example =
    get-from_slots 50 ranges (omega arith, (inr (omega arith), tt), (omega arith, tt, tt))

build_shards-grouped_example :
    IsDistinct (build_shards (iter (from_slots scattered)) [])
    × Permᴰ
        (served (build_shards (iter (from_slots scattered)) []))
        (ranges_of (iter (from_slots scattered)))
build_shards-grouped_example = build_shards-grouped (from_slots scattered)

abbrev shard : SlotAddrs
shard = record { primary = node 1; replicas = node 2 ∷ node 4 ∷ [] }

slot_addr-permitted_example :
    Memᴰ (slot_addr (λ r. r.first) shard 7 replica_required none) (permitted replica_required shard)
slot_addr-permitted_example =
    slot_addr-permitted (λ r. r.first) (λ r. Memᴰ.head refl) shard 7 replica_required none tt

combine_and_sort_array_results-total_len_example :
    combine_and_sort_array_results
      (array (item (bulk_string (codes "x")) end) ∷ (array end ∷ int (pos 3) ∷ []))
      ((route_to 97, 0 ∷ []) ∷ (route_to 98, 1 ∷ []) ∷ (route_to 99, 2 ∷ []) ∷ [])
      keys_only
    ≡ panicked
combine_and_sort_array_results-total_len_example =
    combine_and_sort_array_results-total_len (route_to 97) (0 ∷ [])
      ((route_to 98, 1 ∷ []) ∷ (route_to 99, 2 ∷ []) ∷ []) (bulk_string (codes "x")) end
      (array end ∷ []) (pos 3) refl

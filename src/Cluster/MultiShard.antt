-- ===== src/Cluster/MultiShard.antt =====
-- `multi_shard` of redis/src/cluster_handling/routing.rs: how a command on many keys is split by slot.
-- The `HashMap` of routes is a list of its entries; the order in which it is iterated at the end is
-- the argument `order`.
pub mod Keys
use redis_rs.Base.{
  ℕ, zero, suc, ◌+◌, ◌≡◌, refl, Bool, true, false, Option, none, some, List, [], ◌∷◌, ◌++◌, Bytes,
  if◌then◌else◌,
}
use redis_rs.Cmd.{Cmd, new, write_arg}
use redis_rs.Cluster.Slot.{Route, route_eq, get_route}
use redis_rs.Cluster.BaseRouting.{
  MultiSlotArgPattern, keys_only, key_value_pairs, keys_and_last_arg, key_with_two_arg_triples,
}
use redis_rs.Cluster.Properties.{is_readonly_cmd}
use redis_rs.Cluster.ResponsePolicy.{ResponsePolicy, for_command}
use redis_rs.Cluster.Routable.{Routable}

abbrev pub Routes : Type 0
Routes = List (Route × List ℕ)

pub data SingleNodeRoutingInfo : Type 0 where
  random random_primary : SingleNodeRoutingInfo
  specific_node : Route → SingleNodeRoutingInfo
  by_address : Bytes → ℕ → SingleNodeRoutingInfo

pub data MultipleNodeRoutingInfo : Type 0 where
  all_nodes all_masters : MultipleNodeRoutingInfo
  multi_slot : Routes → MultiSlotArgPattern → MultipleNodeRoutingInfo

pub data RoutingInfo : Type 0 where
  single_node : SingleNodeRoutingInfo → RoutingInfo
  multi_node : MultipleNodeRoutingInfo → Option ResponsePolicy → RoutingInfo

-- A result, or that the rounds of the loop did not suffice.
pub data Loop {ℓ} (A : Type ℓ) : Type ℓ where
  done : A → Loop A
  out_of_fuel : Loop A

-- `routes.entry(route).or_insert(Vec::new()).push(i)`.
unfoldable pub push_index : Route → ℕ → Routes → Routes
push_index route i [] = (route, i ∷ []) ∷ []
push_index route i ((r, indices) ∷ routes) =
    if route_eq r route
    then (r, indices ++ i ∷ []) ∷ routes
    else (r, indices) ∷ push_index route i routes

-- `for arg_indices in routes.values_mut() { arg_indices.push(i) }`.
unfoldable pub push_all : ℕ → Routes → Routes
push_all i [] = []
push_all i ((r, indices) ∷ routes) = (r, indices ++ i ∷ []) ∷ push_all i routes

-- What a round of the loop does next: go on at an index, leave the loop, or return `None`.
pub data Step : Type 0 where
  go_on : ℕ → Routes → Step
  finished : Routes → Step
  refused : Step

-- `incr_add_next_arg`: the next index, added to the route's, if the routable has an argument there.
unfoldable pub incr_add_next_arg : Routable → Route → ℕ → Routes → Option (ℕ × Routes)
unfolding push_index
incr_add_next_arg r route curr routes = elim (r.arg_idx (curr + 1)) [
  | none ↦ none
  | some _ ↦ some (curr + 1, push_index route (curr + 1) routes)
]

unfoldable pub after_one : Option (ℕ × Routes) → Step
after_one none = refused
after_one (some (curr, routes)) = go_on (curr + 1) routes

unfoldable pub after_two : Routable → Route → Option (ℕ × Routes) → Step
unfolding incr_add_next_arg after_one
after_two r route none = refused
after_two r route (some (curr, routes)) = after_one (incr_add_next_arg r route curr routes)

-- The body of the loop, once the key's index is added to its route's.
unfoldable pub shard_step : Routable → ℕ → MultiSlotArgPattern → Route → ℕ → Routes → Step
unfolding after_one after_two incr_add_next_arg push_all
shard_step r first keys_only route curr routes = go_on (curr + 1) routes
shard_step r first key_value_pairs route curr routes =
    after_one (incr_add_next_arg r route curr routes)
shard_step r first keys_and_last_arg route curr routes = elim (r.arg_idx (first + curr + 2)) [
  | none ↦ finished (push_all (curr + 1) routes)
  | some _ ↦ go_on (curr + 1) routes
]
shard_step r first key_with_two_arg_triples route curr routes =
    after_two r route (incr_add_next_arg r route curr routes)

unfoldable pub shard_result : Routes → MultiSlotArgPattern → Bytes → Option RoutingInfo
shard_result [] pattern cmd = none
shard_result ((route, indices) ∷ []) pattern cmd = some (single_node (specific_node route))
shard_result (a ∷ b ∷ routes) pattern cmd =
    some (multi_node (multi_slot (a ∷ b ∷ routes) pattern) (for_command cmd))

-- `cmd.arg(o)` for an optional argument: nothing is written for `None`.
unfoldable pub write_option : Cmd → Option Bytes → Cmd
write_option c none = c
write_option c (some arg) = write_arg c arg

unfoldable pub add_indices : Routable → Cmd → List ℕ → Cmd
unfolding write_option
add_indices r c [] = c
add_indices r c (i ∷ indices) = add_indices r (write_option c (r.arg_idx (i + 1))) indices

-- The sub-command of one route.
unfoldable pub command_for_multi_slot_indices : Routable → List ℕ → Cmd
unfolding add_indices
command_for_multi_slot_indices r indices = add_indices r (write_option new (r.arg_idx 0)) indices

module _ (crc16 : Bytes → ℕ) where
  -- The `while let` loop; `none` is the early return of `None`.
  unfoldable pub shard_loop :
      ℕ → Routable → ℕ → Bool → MultiSlotArgPattern → ℕ → Routes → Loop (Option Routes)
  unfolding shard_step push_index
  shard_loop zero r first readonly pattern curr routes = out_of_fuel
  shard_loop (suc fuel) r first readonly pattern curr routes = elim (r.arg_idx (first + curr)) [
    | none ↦ done (some routes)
    | some arg ↦
        let route = get_route crc16 readonly arg in
        elim (shard_step r first pattern route curr (push_index route curr routes)) [
          | go_on curr' routes' ↦ shard_loop fuel r first readonly pattern curr' routes'
          | finished routes' ↦ done (some routes')
          | refused ↦ done none
        ]
  ]

  module _ (order : Routes → Routes) where
    unfoldable pub sharded :
        MultiSlotArgPattern → Bytes → Loop (Option Routes) → Loop (Option RoutingInfo)
    unfolding shard_result
    sharded pattern cmd out_of_fuel = out_of_fuel
    sharded pattern cmd (done none) = done none
    sharded pattern cmd (done (some routes)) = done (shard_result (order routes) pattern cmd)

    unfoldable pub multi_shard :
        ℕ → Routable → Bytes → ℕ → MultiSlotArgPattern → Loop (Option RoutingInfo)
    unfolding shard_loop sharded
    multi_shard fuel r cmd first pattern =
        sharded pattern cmd (shard_loop fuel r first (is_readonly_cmd cmd) pattern 0 [])

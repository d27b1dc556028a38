-- ===== src/Cluster/Pipeline.antt =====
-- Where a pipeline is sent: `route_for_pipeline` of
-- redis/src/cluster_handling/async_connection/routing.rs. The random route that stands for any primary
-- is a parameter. The commands are those that can be asked for any of their arguments without a
-- panic.
pub mod Verdict
pub mod Answer
use redis_rs.Base.{ℕ, Bool, not, Option, none, some, List, [], ◌∷◌, Bytes, ◌==◌, if◌then◌else◌}
use redis_rs.Errors.Server.{cross_slot}
use redis_rs.Errors.Redis.{general, server}
use redis_rs.Errors.Redis
use redis_rs.Value.Defs.{Outcome, ok, err, ◌>>=◌}
use redis_rs.Cmd.{Cmd}
use redis_rs.Cluster.Slot.{Route, master, addr_eq}
use redis_rs.Cluster.Routable.{Searchable, cmd_routable}
use redis_rs.Cluster.MultiShard.{
  Routes, RoutingInfo, single_node, multi_node, random, random_primary, specific_node, by_address,
  Loop, done, out_of_fuel,
}
use redis_rs.Cluster.Routing.{for_routable}

-- The `match` of `route_for_command`.
unfoldable pub specific_route : Route → Option RoutingInfo → Option Route
specific_route drawn none = none
specific_route drawn (some (single_node (specific_node route))) = some route
specific_route drawn (some (single_node random_primary)) = some drawn
specific_route drawn (some (single_node random)) = none
specific_route drawn (some (single_node (by_address host port))) = none
specific_route drawn (some (multi_node info policy)) = none

-- The closure of the fold.
unfoldable pub choose_route : Option Route → Option Route → Outcome (Option Route)
unfolding addr_eq
choose_route none next = ok next
choose_route (some chosen) none = ok (some chosen)
choose_route (some chosen) (some next) =
    if not (chosen.slot == next.slot)
    then err (general (server cross_slot) "Received crossed slots in pipeline" none)
    else if not (addr_eq chosen.slot_addr master)
    then ok (some next)
    else ok (some chosen)

-- The `try_fold`.
unfoldable pub fold_routes : Option Route → List (Option Route) → Outcome (Option Route)
unfolding choose_route
fold_routes chosen [] = ok chosen
fold_routes chosen (next ∷ routes) = do
  chosen' ← choose_route chosen next
  fold_routes chosen' routes

-- What the loops of all commands end with.
unfoldable pub cons_loop : Option Route → Loop (List (Option Route)) → Loop (List (Option Route))
cons_loop route (done routes) = done (route ∷ routes)
cons_loop route out_of_fuel = out_of_fuel

module _ (crc16 : Bytes → ℕ) (order : Routes → Routes) (new_random_primary : Cmd → Route) where
  unfoldable pub routes_for_commands : ℕ → List Searchable → Loop (List (Option Route))
  unfolding specific_route cons_loop
  routes_for_commands fuel [] = done []
  routes_for_commands fuel (c ∷ cmds) =
      let rest = routes_for_commands fuel cmds in
      elim (for_routable crc16 order fuel (cmd_routable c)) [
        | out_of_fuel ↦ out_of_fuel
        | done info ↦ cons_loop (specific_route (new_random_primary c.cmd) info) rest
      ]

  unfoldable pub route_for_pipeline : ℕ → List Searchable → Loop (Outcome (Option Route))
  unfolding fold_routes routes_for_commands
  route_for_pipeline fuel cmds = elim (routes_for_commands fuel cmds) [
    | out_of_fuel ↦ out_of_fuel
    | done routes ↦ done (fold_routes none routes)
  ]

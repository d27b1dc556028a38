-- ===== src/Cluster/Pipeline/Answer.antt =====
-- `route_for_pipeline` has an answer, and what it says of the pipeline's commands.
use redis_rs.Base.{
  ℕ, ◌≤◌, ◌<◌, ◌≡◌, refl, get_elem?, sym, ◌∙◌, Option, none, List, [], ◌∷◌, Bytes, length, le→leb,
  Option-cases, inl, inr,
}
use mathlib.Core.List.{Permᴰ}
use redis_rs.Value.Defs.{Outcome, ok}
use redis_rs.Cmd.{Cmd, arg_idx, args_iter, offset}
use redis_rs.Cmd.Args.{IsValid}
use redis_rs.Cmd.Index.{AllSimple, text_of, arg_idx-args_iter}
use redis_rs.Cluster.Slot.{Route}
use redis_rs.Cluster.Routable.{Searchable, cmd_routable, command}
use redis_rs.Cluster.MultiShard.{Routes, RoutingInfo, done}
use redis_rs.Cluster.Routing.{for_routable}
use redis_rs.Cluster.Routing.Safety.{for_routable-IsSafeAnswer}
use redis_rs.Cluster.Pipeline.{
  specific_route, cons_loop, fold_routes, routes_for_commands, route_for_pipeline,
}
use redis_rs.Cluster.Pipeline.Verdict.{Verdict, Verdict-from_none}

-- A valid command without cursors whose first argument is not empty can be asked for any argument.
IsValid-Searchable :
    (c : Cmd)
    → IsValid c
    → AllSimple c.args
    → 0 < offset (get_elem? c.args 0)
    → (s : Searchable) × (s.cmd ≡ c)
IsValid-Searchable c valid plain first = (
  record {
    cmd = c;
    found = λ i. text_of (get_elem? (args_iter c) i);
    is_found = λ i. arg_idx-args_iter c i valid plain first;
  },
  refl,
)

-- Every command has fewer arguments than that.
abbrev pub AllShorter : ℕ → List Searchable → Type 0
AllShorter fuel [] = Unit
AllShorter fuel (c ∷ cmds) = (length c.cmd.args < fuel) × AllShorter fuel cmds

ok_inj : {A : Type 0} {a b : A} → ok a ≡ ok b → a ≡ b
ok_inj h = cc

-- No command has an argument past its last.
arg_idx-past : (c : Searchable) (i : ℕ) → length c.cmd.args ≤ i → (cmd_routable c).arg_idx i ≡ none
unfolding cmd_routable arg_idx
arg_idx-past c i h = ok_inj (sym (c.is_found i) ∙ rw (le→leb (length c.cmd.args) i h) refl)

module _ (crc16 : Bytes → ℕ) (order : Routes → Routes)
    (reorders : (routes : Routes) → Permᴰ (order routes) routes) (drawn : Cmd → Route) where
  for_routable-done :
      (fuel : ℕ) (c : Searchable)
      → length c.cmd.args < fuel
      → (info : Option RoutingInfo) × (for_routable crc16 order fuel (cmd_routable c) ≡ done info)
  unfolding for_routable
  for_routable-done fuel c h = elim (Option-cases (command (cmd_routable c))) [
    | inl unnamed ↦ (none, rw (unnamed, for_routable) refl)
    | inr (name, named) ↦
        let (info, e, safe) =
          for_routable-IsSafeAnswer crc16 order reorders fuel (cmd_routable c) name
            (length c.cmd.args) (arg_idx-past c) h named in
        (info, e)
  ]

  routes_for_commands-done :
      (fuel : ℕ) (cmds : List Searchable)
      → AllShorter fuel cmds
      → (routes : List (Option Route)) × (routes_for_commands crc16 order drawn fuel cmds
          ≡ done routes)
  unfolding routes_for_commands cons_loop
  routes_for_commands-done fuel [] h = ([], refl)
  routes_for_commands-done fuel (c ∷ cmds) h =
      let (info, e) = for_routable-done fuel c h.0 in
      let (routes, es) = routes_for_commands-done fuel cmds h.1 in
      (specific_route (drawn c.cmd) info ∷ routes, rw (e, es, routes_for_commands) refl)

  -- For commands that can be asked for any of their arguments without a panic: with more fuel than any of
  -- them has arguments, the routing of a pipeline ends. It answers with no route if no command has one;
  -- with a route of one of the commands, to the slot of them all, and to a primary if any of them goes
  -- to one; and with an error only if two commands have routes to different slots. It does not panic.
  pub route_for_pipeline-Verdict :
      (fuel : ℕ) (cmds : List Searchable)
      → AllShorter fuel cmds
      → (routes : List (Option Route)) × (answer : Outcome (Option Route)) × (routes_for_commands
            crc16 order drawn fuel cmds
          ≡ done routes)
        × (route_for_pipeline crc16 order drawn fuel cmds ≡ done answer)
        × Verdict routes answer
  unfolding route_for_pipeline
  route_for_pipeline-Verdict fuel cmds h =
      let (routes, e) = routes_for_commands-done fuel cmds h in
      (
        routes,
        fold_routes none routes,
        e,
        rw (e, route_for_pipeline) refl,
        Verdict-from_none routes,
      )

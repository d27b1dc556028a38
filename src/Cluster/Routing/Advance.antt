-- ===== src/Cluster/Routing/Advance.antt =====
-- The loop of `multi_shard`: it ends, and a predicate that holds of the route of every key holds of
-- every route it collects.
use redis_rs.Base.{
  ℕ, zero, suc, ◌+◌, ◌≤◌, ◌<◌, ◌≡◌, refl, sym, subst, inl, inr, Bool, Option, none, some, [], ◌∷◌,
  Bytes, Bool-cases, Option-cases, arith,
}
use mathlib.Core.List.{Permᴰ}
use redis_rs.Cluster.Slot.{Route, route_eq, get_route}
use redis_rs.Cluster.BaseRouting.{
  MultiSlotArgPattern, keys_only, key_value_pairs, keys_and_last_arg, key_with_two_arg_triples,
}
use redis_rs.Cluster.Routable.{Routable}
use redis_rs.Cluster.MultiShard.{
  Routes, Loop, done, Step, go_on, finished, refused, push_index, push_all, incr_add_next_arg,
  after_one, after_two, shard_step, shard_loop,
}

abbrev pub EachRoute : (Route → Type 0) → Routes → Type 0
EachRoute P [] = Unit
EachRoute P ((route, indices) ∷ routes) = P route × EachRoute P routes

module _ (P : Route → Type 0) where
  push_index-EachRoute :
      (route : Route) (i : ℕ) (routes : Routes)
      → P route
      → EachRoute P routes
      → EachRoute P (push_index route i routes)
  unfolding push_index
  push_index-EachRoute route i [] p h = (p, tt)
  push_index-EachRoute route i ((r, indices) ∷ routes) p h = elim (Bool-cases (route_eq r route)) [
    | inl same ↦ rw same h
    | inr other ↦ rw other (h.0, push_index-EachRoute route i routes p h.1)
  ]

  push_all-EachRoute :
      (i : ℕ) (routes : Routes) → EachRoute P routes → EachRoute P (push_all i routes)
  unfolding push_all
  push_all-EachRoute i [] h = tt
  push_all-EachRoute i ((r, indices) ∷ routes) h = (h.0, push_all-EachRoute i routes h.1)

  pub EachRoute-perm : {a b : Routes} → Permᴰ a b → EachRoute P b → EachRoute P a
  EachRoute-perm Permᴰ.nil h = tt
  EachRoute-perm (Permᴰ.cons e p) h = (subst (λ x. P x.0) (sym e) h.0, EachRoute-perm p h.1)
  EachRoute-perm (Permᴰ.swap e e') h =
      (subst (λ x. P x.0) (sym e) h.1.0, (subst (λ x. P x.0) (sym e') h.0, h.1.1))
  EachRoute-perm (Permᴰ.trans p q) h = EachRoute-perm p (EachRoute-perm q h)

  -- A round goes on at a later index, and every route satisfies `P`.
  abbrev Advances : ℕ → Step → Type 0
  Advances curr (go_on curr' routes) = (curr < curr') × EachRoute P routes
  Advances curr (finished routes) = EachRoute P routes
  Advances curr refused = Unit

  abbrev Holds : ℕ → Option (ℕ × Routes) → Type 0
  Holds curr none = Unit
  Holds curr (some (curr', routes)) = (curr < curr') × EachRoute P routes

  incr_add_next_arg-Holds :
      (r : Routable) (route : Route) (curr : ℕ) (routes : Routes)
      → P route
      → EachRoute P routes
      → Holds curr (incr_add_next_arg r route curr routes)
  unfolding incr_add_next_arg
  incr_add_next_arg-Holds r route curr routes p h = elim (Option-cases (r.arg_idx (curr + 1))) [
    | inl missing ↦ rw (missing, Holds) tt
    | inr (arg, found) ↦
        rw (found, Holds) (omega arith, push_index-EachRoute route (curr + 1) routes p h)
  ]

  after_one-Advances :
      (curr : ℕ) (o : Option (ℕ × Routes)) → Holds curr o → Advances curr (after_one o)
  unfolding after_one
  after_one-Advances curr none h = tt
  after_one-Advances curr (some (curr', routes)) h = (omega (arith, h.0), h.1)

  Advances-earlier : (a b : ℕ) (s : Step) → a ≤ b → Advances b s → Advances a s
  Advances-earlier a b (go_on c routes) l h = (omega (arith, h.0), h.1)
  Advances-earlier a b (finished routes) l h = h
  Advances-earlier a b refused l h = tt

  after_two-Advances :
      (r : Routable) (route : Route) (curr : ℕ) (o : Option (ℕ × Routes))
      → P route
      → Holds curr o
      → Advances curr (after_two r route o)
  unfolding after_two
  after_two-Advances r route curr none p h = tt
  after_two-Advances r route curr (some (curr', routes)) p h =
      let next = incr_add_next_arg r route curr' routes in
      Advances-earlier curr curr' (after_one next) (omega (arith, h.0))
        (after_one-Advances curr' next (incr_add_next_arg-Holds r route curr' routes p h.1))

  shard_step-Advances :
      (r : Routable) (first : ℕ) (pattern : MultiSlotArgPattern) (route : Route) (curr : ℕ)
      (routes : Routes)
      → P route
      → EachRoute P routes
      → Advances curr (shard_step r first pattern route curr routes)
  unfolding shard_step
  shard_step-Advances r first keys_only route curr routes p h = (omega arith, h)
  shard_step-Advances r first key_value_pairs route curr routes p h =
      after_one-Advances curr (incr_add_next_arg r route curr routes)
        (incr_add_next_arg-Holds r route curr routes p h)
  shard_step-Advances r first keys_and_last_arg route curr routes p h =
      elim (Option-cases (r.arg_idx (first + curr + 2))) [
        | inl last ↦ rw (last, Advances) (push_all-EachRoute (curr + 1) routes h)
        | inr (arg, more) ↦ rw (more, Advances) (omega arith, h)
      ]
  shard_step-Advances r first key_with_two_arg_triples route curr routes p h =
      after_two-Advances r route curr (incr_add_next_arg r route curr routes) p
        (incr_add_next_arg-Holds r route curr routes p h)

  -- What the loop of `multi_shard` ends with: it has ended, and every route satisfies `P`.
  abbrev pub Ends : Loop (Option Routes) → Type 0
  Ends answer =
      (routes : Option Routes) × (answer ≡ done routes)
      × elim routes [ none ↦ Unit | some found ↦ EachRoute P found ]

  module _ (crc16 : Bytes → ℕ) (readonly : Bool)
      (all : (k : Bytes) → P (get_route crc16 readonly k)) where
    -- The loop from one index onwards, once the rounds from later indices are known to end.
    Advances-Ends :
        (fuel : ℕ) (r : Routable) (first curr : ℕ) (pattern : MultiSlotArgPattern) (s : Step)
        → ((curr' : ℕ) (routes : Routes)
            → curr < curr'
            → EachRoute P routes
            → Ends (shard_loop crc16 fuel r first readonly pattern curr' routes))
        → Advances curr s
        → Ends (elim s [
          | go_on curr' routes ↦ shard_loop crc16 fuel r first readonly pattern curr' routes
          | finished routes ↦ done (some routes)
          | refused ↦ done none
        ])
    Advances-Ends fuel r first curr pattern (go_on curr' routes) later h =
        later curr' routes h.0 h.1
    Advances-Ends fuel r first curr pattern (finished routes) later h = (some routes, refl, h)
    Advances-Ends fuel r first curr pattern refused later h = (none, refl, tt)

    -- Each round moves on, so that the arguments run out before the fuel does.
    pub shard_loop-Ends :
        (fuel : ℕ) (r : Routable) (first n : ℕ) (pattern : MultiSlotArgPattern) (curr : ℕ)
        (routes : Routes)
        → ((i : ℕ) → n ≤ i → r.arg_idx i ≡ none)
        → n < fuel + (first + curr)
        → EachRoute P routes
        → Ends (shard_loop crc16 (suc fuel) r first readonly pattern curr routes)
    unfolding shard_loop
    shard_loop-Ends zero r first n pattern curr routes stops h e =
        rw (stops (first + curr) (omega arith), Ends, shard_loop) (some routes, refl, e)
    shard_loop-Ends (suc fuel) r first n pattern curr routes stops h e =
        elim (Option-cases (r.arg_idx (first + curr))) [
          | inl missing ↦ rw (missing, Ends, shard_loop) (some routes, refl, e)
          | inr (key, found) ↦
              let route = get_route crc16 readonly key in
              rw (found, shard_loop)
                (Advances-Ends (suc fuel) r first curr pattern
                  (shard_step r first pattern route curr (push_index route curr routes))
                  (λ curr' routes' later safe.
                    shard_loop-Ends fuel r first n pattern curr' routes' stops (omega arith) safe)
                  (shard_step-Advances r first pattern route curr (push_index route curr routes)
                    (all key) (push_index-EachRoute route curr routes (all key) e)))
        ]

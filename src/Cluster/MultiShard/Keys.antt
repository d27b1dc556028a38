-- ===== src/Cluster/MultiShard/Keys.antt =====
-- The split of a command whose arguments are all keys: the loop of `multi_shard` ends, and what its
-- routes hold.
use redis_rs.Base.{
  ℕ, zero, suc, ◌+◌, ◌<◌, ◌≡◌, refl, ap, sym, ◌∙◌, subst, inl, inr, Bool, none, some, List, [], ◌∷◌,
  ◌++◌, Bytes, length, get_elem?, Bool-cases, arith, append_assoc, append-nil,
}
use mathlib.Core.List.Permᴰ
use mathlib.Core.List.{Permᴰ}
use redis_rs.Cluster.Slot.{Route, route_eq, route_eq_sound, get_route}
use redis_rs.Cluster.BaseRouting.{keys_only}
use redis_rs.Cluster.Routable.{Routable}
use redis_rs.Cluster.MultiShard.{Routes, done, push_index, shard_loop}

-- All indices that the routes hold.
unfoldable pub all_indices : Routes → List ℕ
all_indices [] = []
all_indices ((route, indices) ∷ routes) = indices ++ all_indices routes

-- `curr`, `curr + 1`, …: one for each key.
unfoldable pub positions : ℕ → List Bytes → List ℕ
positions curr [] = []
positions curr (k ∷ ks) = curr ∷ positions (curr + 1) ks

-- Every index of a route satisfies `P` with the route.
abbrev pub AllIndices : (ℕ → Type 0) → List ℕ → Type 0
AllIndices P [] = Unit
AllIndices P (i ∷ is) = P i × AllIndices P is

abbrev pub Each : (Route → ℕ → Type 0) → Routes → Type 0
Each P [] = Unit
Each P ((route, indices) ∷ routes) = AllIndices (P route) indices × Each P routes

AllIndices-append :
    (P : ℕ → Type 0) (is js : List ℕ) → AllIndices P is → AllIndices P js → AllIndices P (is ++ js)
AllIndices-append P [] js h k = k
AllIndices-append P (i ∷ is) js h k = (h.0, AllIndices-append P is js h.1 k)

push_index-Each :
    (P : Route → ℕ → Type 0) (route : Route) (i : ℕ) (routes : Routes)
    → P route i
    → Each P routes
    → Each P (push_index route i routes)
unfolding push_index
push_index-Each P route i [] p h = ((p, tt), tt)
push_index-Each P route i ((r, is) ∷ routes) p h = elim (Bool-cases (route_eq r route)) [
  | inl same ↦ rw same (
    AllIndices-append (P r) is (i ∷ []) h.0
        (subst (λ s. P s i) (sym (route_eq_sound r route same)) p, tt),
    h.1,
  )
  | inr other ↦ rw other (h.0, push_index-Each P route i routes p h.1)
]

push_index-perm :
    (route : Route) (i : ℕ) (routes : Routes)
    → Permᴰ (all_indices (push_index route i routes)) (i ∷ all_indices routes)
unfolding push_index all_indices
push_index-perm route i [] = Permᴰ.refl (i ∷ [])
push_index-perm route i ((r, is) ∷ routes) = elim (Bool-cases (route_eq r route)) [
  | inl same ↦ rw same (
      subst (λ l. Permᴰ l (i ∷ (is ++ all_indices routes)))
        (sym (append_assoc is (i ∷ []) (all_indices routes)))
        (Permᴰ.middle i is (all_indices routes)))
  | inr other ↦ rw other (
      Permᴰ.trans (Permᴰ.append_left is (push_index-perm route i routes))
        (Permᴰ.middle i is (all_indices routes)))
]

module _ (crc16 : Bytes → ℕ) (readonly : Bool) where
  -- The routes after the keys, the first of which has the index `curr`.
  unfoldable pub shard_keys : List Bytes → ℕ → Routes → Routes
  shard_keys [] curr routes = routes
  shard_keys (k ∷ ks) curr routes =
      shard_keys ks (curr + 1) (push_index (get_route crc16 readonly k) curr routes)

  -- The indices are those of the keys, each once.
  shard_keys-perm :
      (ks : List Bytes) (curr : ℕ) (routes : Routes)
      → Permᴰ (all_indices (shard_keys ks curr routes)) (positions curr ks ++ all_indices routes)
  unfolding shard_keys positions
  shard_keys-perm [] curr routes = Permᴰ.refl (all_indices routes)
  shard_keys-perm (k ∷ ks) curr routes =
      let route = get_route crc16 readonly k in
      Permᴰ.trans (shard_keys-perm ks (curr + 1) (push_index route curr routes)) (
        Permᴰ.trans
          (Permᴰ.append_left (positions (curr + 1) ks) (push_index-perm route curr routes))
          (Permᴰ.middle curr (positions (curr + 1) ks) (all_indices routes)))

  -- An index stands under the route of the key at that index.
  abbrev pub HasRoute : List Bytes → Route → ℕ → Type 0
  HasRoute ks route i =
      (k : Bytes) × (get_elem? ks i ≡ some k) × (get_route crc16 readonly k ≡ route)

  shard_keys-Each :
      (all ks : List Bytes) (curr : ℕ) (routes : Routes)
      → ((j : ℕ) → get_elem? all (curr + j) ≡ get_elem? ks j)
      → Each (HasRoute all) routes
      → Each (HasRoute all) (shard_keys ks curr routes)
  unfolding shard_keys
  shard_keys-Each all [] curr routes e h = h
  shard_keys-Each all (k ∷ ks) curr routes e h =
      let here : get_elem? all curr ≡ some k = ap (get_elem? all) (omega arith) ∙ e 0 in
      shard_keys-Each all ks (curr + 1) (push_index (get_route crc16 readonly k) curr routes)
        (λ j. ap (get_elem? all) (omega arith) ∙ e (suc j))
        (push_index-Each (HasRoute all) (get_route crc16 readonly k) curr routes (k, here, refl) h)

  shard_loop-keys :
      (fuel : ℕ) (r : Routable) (first : ℕ) (ks : List Bytes) (curr : ℕ) (routes : Routes)
      → length ks < fuel
      → ((j : ℕ) → r.arg_idx (first + (curr + j)) ≡ get_elem? ks j)
      → shard_loop crc16 fuel r first readonly keys_only curr routes
        ≡ done (some (shard_keys ks curr routes))
  unfolding shard_loop shard_keys
  shard_loop-keys zero r first ks curr routes h e = absurd (omega arith)
  shard_loop-keys (suc fuel) r first [] curr routes h e =
      let here : r.arg_idx (first + curr) ≡ none = ap r.arg_idx (omega arith) ∙ e 0 in
      rw (here, shard_loop)
  shard_loop-keys (suc fuel) r first (k ∷ ks) curr routes h e =
      let here : r.arg_idx (first + curr) ≡ some k = ap r.arg_idx (omega arith) ∙ e 0 in
      rw (here, shard_loop)
        (shard_loop-keys fuel r first ks (curr + 1)
          (push_index (get_route crc16 readonly k) curr routes) (omega arith)
          (λ j. ap r.arg_idx (omega arith) ∙ e (suc j)))

  -- For a command all of whose arguments from the first key on are keys, with more rounds than keys: the
  -- loop ends, and the split is complete: every key's index stands under the key's own route, and every
  -- index stands there once.
  pub shard_loop_complete :
      (fuel : ℕ) (r : Routable) (first : ℕ) (ks : List Bytes)
      → length ks < fuel
      → ((j : ℕ) → r.arg_idx (first + j) ≡ get_elem? ks j)
      → (routes : Routes) × (shard_loop crc16 fuel r first readonly keys_only 0 []
          ≡ done (some routes))
        × Each (HasRoute ks) routes
        × Permᴰ (all_indices routes) (positions 0 ks)
  unfolding all_indices
  shard_loop_complete fuel r first ks h e = (
    shard_keys ks 0 [],
    shard_loop-keys fuel r first ks 0 [] h (λ j. ap r.arg_idx (omega arith) ∙ e j),
    shard_keys-Each ks ks 0 [] (λ j. ap (get_elem? ks) (omega arith)) tt,
    subst (λ l. Permᴰ (all_indices (shard_keys ks 0 [])) l) (append-nil (positions 0 ks))
        (shard_keys-perm ks 0 []),
  )

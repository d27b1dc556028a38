-- ===== src/Cluster/Aggregate/Split.antt =====
-- A command on many keys, split by slot, run piece by piece and sorted back.
use redis_rs.Base.{
  ℕ, zero, suc, ◌+◌, ◌<◌, ◌≡◌, refl, ap, ap₂, ◌∙◌, subst, Option, none, some, List, [], ◌∷◌, ◌++◌,
  map, Bytes, length, get_elem?, append_assoc, arith,
}
use mathlib.Core.List.Permᴰ
use mathlib.Core.List.{Permᴰ}
use redis_rs.Value.Defs.{Value, array, of_list, ok}
use redis_rs.Cmd.{Cmd, Arg, simple, cursor, new, write_arg, args_iter}
use redis_rs.Cmd.Args.{write_args, new-IsValid, args_iter-write_args}
use redis_rs.Cluster.Slot.{Route}
use redis_rs.Cluster.BaseRouting.{MultiSlotArgPattern, keys_only}
use redis_rs.Cluster.Properties.{is_readonly_cmd}
use redis_rs.Cluster.ResponsePolicy.{ResponsePolicy}
use redis_rs.Cluster.Routable.{Routable}
use redis_rs.Cluster.MultiShard.{
  Routes, multi_node, multi_slot, done, shard_result, sharded, multi_shard, write_option,
  add_indices, command_for_multi_slot_indices,
}
use redis_rs.Cluster.MultiShard.Keys.{all_indices, positions, AllIndices, shard_loop_complete}
use redis_rs.Cluster.Aggregate.{combine_and_sort_array_results}
use redis_rs.Cluster.Aggregate.Sorting.{
  reply, combine-reply, AllIndices-left, AllIndices-right, AllIndices-perm, AllIndices-positions,
}

-- The keys of a command: its arguments but the name.
abbrev texts : List (Arg Bytes) → List Bytes
texts [] = []
texts (simple s ∷ args) = s ∷ texts args
texts (cursor ∷ args) = texts args

abbrev keys_of : List (Arg Bytes) → List Bytes
keys_of [] = []
keys_of (name ∷ args) = texts args

-- A server that answers with `f` for each key of the command that it is sent.
unfoldable pub server_reply : (Bytes → Value) → Cmd → Value
server_reply f c = array (of_list (map f (keys_of (args_iter c))))

abbrev or_empty : Option Bytes → Bytes
or_empty none = []
or_empty (some k) = k

abbrev key_at : List Bytes → ℕ → Bytes
key_at ks i = or_empty (get_elem? ks i)

get_elem?-key_at : (ks : List Bytes) (i : ℕ) → i < length ks → get_elem? ks i ≡ some (key_at ks i)
get_elem?-key_at [] i l = absurd (omega arith)
get_elem?-key_at (k ∷ ks) zero l = refl
get_elem?-key_at (k ∷ ks) (suc i) l = get_elem?-key_at ks i (omega arith)

texts-simple : (xs : List Bytes) → texts (map simple xs) ≡ xs
texts-simple [] = refl
texts-simple (x ∷ xs) = ap (◌∷◌ x) (texts-simple xs)

map-map :
    (f : Bytes → Value) (g : ℕ → Bytes) (is : List ℕ) → map f (map g is) ≡ map (λ i. f (g i)) is
map-map f g [] = refl
map-map f g (i ∷ is) = ap (◌∷◌ (f (g i))) (map-map f g is)

get_elem?-map_key :
    (f : Bytes → Value) (ks : List Bytes) (j : ℕ)
    → j < length ks
    → get_elem? (map f ks) j ≡ some (f (key_at ks j))
get_elem?-map_key f [] j l = absurd (omega arith)
get_elem?-map_key f (k ∷ ks) zero l = refl
get_elem?-map_key f (k ∷ ks) (suc j) l = get_elem?-map_key f ks j (omega arith)

module _ (r : Routable) (ks : List Bytes) (e : (j : ℕ) → r.arg_idx (1 + j) ≡ get_elem? ks j) where
  add_indices-write_args :
      (c : Cmd) (is : List ℕ)
      → AllIndices (λ i. i < length ks) is
      → add_indices r c is ≡ write_args c (map (key_at ks) is)
  unfolding add_indices write_args
  add_indices-write_args c [] a = refl
  add_indices-write_args c (i ∷ is) a =
      let arg : r.arg_idx (i + 1) ≡ some (key_at ks i) =
        ap r.arg_idx (omega arith) ∙ (e i ∙ get_elem?-key_at ks i a.0) in
      rw arg (add_indices-write_args (write_arg c (key_at ks i)) is a.1)

  -- The sub-command has the name and the keys at the route's indices.
  sub_command-write_args :
      (name : Bytes) (is : List ℕ)
      → r.arg_idx 0 ≡ some name
      → AllIndices (λ i. i < length ks) is
      → command_for_multi_slot_indices r is ≡ write_args new (name ∷ map (key_at ks) is)
  unfolding command_for_multi_slot_indices write_args write_option
  sub_command-write_args name is n a =
      ap (λ o. add_indices r (write_option new o) is) n
      ∙ add_indices-write_args (write_arg new name) is a

  server_reply-sub_command :
      (f : Bytes → Value) (name : Bytes) (route : Route) (is : List ℕ)
      → r.arg_idx 0 ≡ some name
      → AllIndices (λ i. i < length ks) is
      → server_reply f (command_for_multi_slot_indices r is)
        ≡ reply (λ i. f (key_at ks i)) (route, is)
  unfolding server_reply args_iter new
  server_reply-sub_command f name route is n a =
      let keys = map (key_at ks) is in
      ap (server_reply f) (sub_command-write_args name is n a)
      ∙ (ap (λ args. array (of_list (map f (keys_of args))))
            (args_iter-write_args new (name ∷ keys) new-IsValid)
          ∙ (ap (λ l. array (of_list (map f l))) (texts-simple keys)
              ∙ ap (λ l. array (of_list l)) (map-map f (key_at ks) is)))

  server_replies :
      (f : Bytes → Value) (name : Bytes) (routes : Routes)
      → r.arg_idx 0 ≡ some name
      → AllIndices (λ i. i < length ks) (all_indices routes)
      → map (λ e. server_reply f (command_for_multi_slot_indices r e.1)) routes
        ≡ map (reply (λ i. f (key_at ks i))) routes
  unfolding all_indices
  server_replies f name [] n a = refl
  server_replies f name ((route, is) ∷ routes) n a =
      ap₂ ◌∷◌
        (server_reply-sub_command f name route is n
          (AllIndices-left (λ i. i < length ks) is (all_indices routes) a))
        (server_replies f name routes n
          (AllIndices-right (λ i. i < length ks) is (all_indices routes) a))

append-swap : (xs ys zs : List ℕ) → Permᴰ (xs ++ (ys ++ zs)) (ys ++ (xs ++ zs))
append-swap xs ys zs =
    subst (λ l. Permᴰ (xs ++ (ys ++ zs)) l) (append_assoc ys xs zs)
      (subst (λ l. Permᴰ l ((ys ++ xs) ++ zs)) (append_assoc xs ys zs)
        (Permᴰ.append_right zs (Permᴰ.append_comm xs ys)))

-- The routes in another order hold the same indices.
all_indices-perm : {a b : Routes} → Permᴰ a b → Permᴰ (all_indices a) (all_indices b)
unfolding all_indices
all_indices-perm Permᴰ.nil = Permᴰ.nil
all_indices-perm (Permᴰ.cons {a} {b} {l₁} {l₂} e p) =
    subst (λ x. Permᴰ (a.1 ++ all_indices l₁) (x.1 ++ all_indices l₂)) e
      (Permᴰ.append_left a.1 (all_indices-perm p))
all_indices-perm (Permᴰ.swap {a} {b} {a'} {b'} {l} e e') =
    subst (λ x. Permᴰ (a.1 ++ (b.1 ++ all_indices l)) (a'.1 ++ (x.1 ++ all_indices l))) e
      (subst (λ y. Permᴰ (a.1 ++ (b.1 ++ all_indices l)) (y.1 ++ (a.1 ++ all_indices l))) e'
        (append-swap a.1 b.1 (all_indices l)))
all_indices-perm (Permᴰ.trans p q) = Permᴰ.trans (all_indices-perm p) (all_indices-perm q)

shard_result-multi_slot :
    (routes routes' : Routes) (pattern pattern' : MultiSlotArgPattern) (cmd : Bytes)
    (policy : Option ResponsePolicy)
    → shard_result routes pattern cmd ≡ some (multi_node (multi_slot routes' pattern') policy)
    → routes ≡ routes'
unfolding shard_result
shard_result-multi_slot [] routes' pattern pattern' cmd policy e = cc
shard_result-multi_slot (a ∷ []) routes' pattern pattern' cmd policy e = cc
shard_result-multi_slot (a ∷ b ∷ routes) routes' pattern pattern' cmd policy e = cc

-- A command `name k₁ … kₙ` on keys alone that `multi_shard` splits over several slots: each part is
-- the name with the keys at that route's indices, and if each part is answered by `f` at its keys,
-- the replies are sorted back into the reply to the whole command, `f` at every key in the order of the
-- command. The routes may come in any order, and the keys may repeat.
pub combine-multi_shard :
    (crc16 : Bytes → ℕ) (order : Routes → Routes)
    → ((routes : Routes) → Permᴰ (order routes) routes)
    → (fuel : ℕ) (r : Routable) (cmd name : Bytes) (ks : List Bytes) (routes : Routes)
      (policy : Option ResponsePolicy) (f : Bytes → Value)
    → length ks < fuel
    → r.arg_idx 0 ≡ some name
    → ((j : ℕ) → r.arg_idx (1 + j) ≡ get_elem? ks j)
    → multi_shard crc16 order fuel r cmd 1 keys_only
      ≡ done (some (multi_node (multi_slot routes keys_only) policy))
    → combine_and_sort_array_results
        (map (λ e. server_reply f (command_for_multi_slot_indices r e.1)) routes)
        routes
        keys_only
      ≡ ok (array (of_list (map f ks)))
unfolding multi_shard sharded
combine-multi_shard crc16 order reorders fuel r cmd name ks routes policy f enough named args
      split =
    let readonly = is_readonly_cmd cmd in
    let (found, ended, each, p) = shard_loop_complete crc16 readonly fuel r 1 ks enough args in
    let ordered : order found ≡ routes =
      shard_result-multi_slot (order found) routes keys_only keys_only cmd policy
        (cc (ap (sharded crc16 order keys_only cmd) ended)) in
    let perm : Permᴰ (all_indices routes) (positions 0 ks) =
      subst (λ l. Permᴰ (all_indices l) (positions 0 ks)) ordered
        (Permᴰ.trans (all_indices-perm (reorders found)) p) in
    let within : AllIndices (λ i. i < length ks) (all_indices routes) =
      AllIndices-perm (λ i. i < length ks) (Permᴰ.symm perm)
        (AllIndices-positions (length ks) 0 ks (omega arith)) in
    ap (λ vs. combine_and_sort_array_results vs routes keys_only)
      (server_replies r ks args f name routes named within)
    ∙ combine-reply (λ i. f (key_at ks i)) f ks routes (get_elem?-map_key f ks) perm

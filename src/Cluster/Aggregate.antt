-- ===== src/Cluster/Aggregate.antt =====
-- How the replies of several nodes become one: `aggregate`, `logical_aggregate`, `combine_map_results`,
-- `combine_array_results` and `combine_and_sort_array_results` of
-- redis/src/cluster_handling/routing.rs. A sum beyond `i64` panics, as with overflow checks.
pub mod Sorting
pub mod Split
pub mod Sums
pub mod Panics
use redis_rs.Base.{
  ℕ, zero, suc, ◌+◌, ◌*◌, ◌-◌, ◌/◌, ◌%◌, ◌≡◌, refl, Bool, true, false, ◌&&◌, String, Option, none,
  some, List, [], ◌∷◌, ◌++◌, map, Bytes, codes, bytes_eq, length, set, replicate, ltb, ◌==◌,
  if◌then◌else◌, to_decimal,
}
use redis_rs.Errors.Redis.{RedisError, general, ErrorKind, unexpected_return_type, client}
use redis_rs.Value.Integer.{ℤ, pos, negsuc, i64_max, min_ℤ, ◌+ℤ◌, in_i64}
use redis_rs.Value.Defs.{
  Value, Values, Pairs, nil, int, bulk_string, array, end_pairs, pair, to_list, of_list, Outcome,
  ok, err, panicked, ◌>>=◌,
}
use redis_rs.Value.Defs
use redis_rs.Cluster.Slot.{Route}
use redis_rs.Cluster.BaseRouting.{
  MultiSlotArgPattern, keys_only, key_value_pairs, keys_and_last_arg, key_with_two_arg_triples,
}
use redis_rs.Cluster.ResponsePolicy.{AggregateOp, min, sum, LogicalAggregateOp, and_op}
use redis_rs.Cluster.MultiShard.{Routes}

abbrev pub unexpected {ℓ} : {A : Type ℓ} → String → Outcome A
unexpected message = err (general unexpected_return_type message none)

unfoldable pub checked : ℤ → Outcome ℤ
unfolding in_i64
checked n = if in_i64 n then ok n else panicked

unfoldable pub aggregate_step : AggregateOp → ℤ → ℤ → Outcome ℤ
unfolding checked min_ℤ ◌+ℤ◌
aggregate_step min acc n = ok (min_ℤ acc n)
aggregate_step sum acc n = checked (acc +ℤ n)

-- The `try_fold` of `aggregate`.
unfoldable pub aggregate_from : AggregateOp → ℤ → List Value → Outcome ℤ
unfolding aggregate_step
aggregate_from op acc [] = ok acc
aggregate_from op acc (int n ∷ vs) = do acc' ← aggregate_step op acc n; aggregate_from op acc' vs
aggregate_from op acc (_ ∷ vs) = unexpected "expected array of integers as response"

unfoldable pub aggregate : List Value → AggregateOp → Outcome Value
unfolding aggregate_from
aggregate vs op = do
  n ← aggregate_from op (elim op [ min ↦ pos i64_max | sum ↦ pos 0 ]) vs
  ok (int n)

is_positive : ℤ → Bool
is_positive (pos n) = ltb 0 n
is_positive (negsuc n) = false

-- The inner loop of `logical_aggregate`; an index beyond `acc` panics.
unfoldable pub and_row : List Bool → Values → Outcome (List Bool)
unfolding is_positive
and_row acc Defs.end = ok acc
and_row (b ∷ acc) (Defs.item (int n) vs) = do
  acc' ← and_row acc vs
  ok ((b && is_positive n) ∷ acc')
and_row [] (Defs.item (int n) vs) = panicked
and_row acc (Defs.item _ vs) = unexpected "expected array of integers as response"

unfoldable pub initial_row : List Bool → Values → List Bool
initial_row [] vs = replicate (Defs.length_values vs) true
initial_row (b ∷ acc) vs = b ∷ acc

unfoldable pub logical_from : LogicalAggregateOp → List Bool → List Value → Outcome (List Bool)
unfolding and_row initial_row
logical_from op acc [] = ok acc
logical_from op acc (array vs ∷ rest) = do
  acc' ← and_row (initial_row acc vs) vs
  logical_from op acc' rest
logical_from op acc (_ ∷ rest) = unexpected "expected array of integers as response"

unfoldable pub logical_aggregate : List Value → LogicalAggregateOp → Outcome Value
unfolding logical_from
logical_aggregate vs op = do
  bits ← logical_from op [] vs
  ok (array (of_list (map (λ b. int (pos (if b then 1 else 0))) bits)))

-- `*map.entry(key).or_insert(0) += n`.
unfoldable pub add_entry : Bytes → ℤ → List (Bytes × ℤ) → Outcome (List (Bytes × ℤ))
unfolding checked ◌+ℤ◌ bytes_eq
add_entry key n [] = do total ← checked (pos 0 +ℤ n); ok ((key, total) ∷ [])
add_entry key n ((k, m) ∷ entries) =
    let rest = add_entry key n entries in
    if bytes_eq k key
    then (do total ← checked (m +ℤ n); ok ((k, total) ∷ entries))
    else (do entries' ← rest; ok ((k, m) ∷ entries'))

-- The elements of one reply: keys and counts in turn.
unfoldable pub add_elements : Values → List (Bytes × ℤ) → Outcome (List (Bytes × ℤ))
unfolding add_entry
add_elements Defs.end entries = ok entries
add_elements (Defs.item (bulk_string key) (Defs.item (int n) vs)) entries = do
  entries' ← add_entry key n entries
  add_elements vs entries'
add_elements (Defs.item (bulk_string key) _) entries = unexpected "expected integer value"
add_elements (Defs.item _ vs) entries = unexpected "expected string key"

unfoldable pub combine_maps_from : List Value → List (Bytes × ℤ) → Outcome (List (Bytes × ℤ))
unfolding add_elements
combine_maps_from [] entries = ok entries
combine_maps_from (array vs ∷ rest) entries = do
  entries' ← add_elements vs entries
  combine_maps_from rest entries'
combine_maps_from (_ ∷ rest) entries = unexpected "expected array of values as response"

unfoldable pub entry_pairs : List (Bytes × ℤ) → Pairs
entry_pairs [] = end_pairs
entry_pairs ((k, n) ∷ entries) = pair (bulk_string k) (int n) (entry_pairs entries)

-- `order` is the order in which the `HashMap` is iterated.
unfoldable pub combine_map_results :
    (List (Bytes × ℤ) → List (Bytes × ℤ)) → List Value → Outcome Value
unfolding combine_maps_from entry_pairs
combine_map_results order vs = do
  entries ← combine_maps_from vs []
  ok (Defs.map (entry_pairs (order entries)))

unfoldable pub extend_arrays : List Value → List Value → Outcome (List Value)
extend_arrays results [] = ok results
extend_arrays results (array vs ∷ rest) = extend_arrays (results ++ to_list vs) rest
extend_arrays results (_ ∷ rest) = unexpected "expected array of values as response"

unfoldable pub combine_array_results : List Value → Outcome Value
unfolding extend_arrays
combine_array_results vs = do results ← extend_arrays [] vs; ok (array (of_list results))

-- `{indices:?}`.
debug_rest : List ℕ → Bytes
debug_rest [] = codes "]"
debug_rest (i ∷ is) = codes ", " ++ (to_decimal i ++ debug_rest is)

debug_indices : List ℕ → Bytes
debug_indices [] = codes "[]"
debug_indices (i ∷ is) = codes "[" ++ (to_decimal i ++ debug_rest is)

-- `check_indices_input`.
unfoldable pub check_indices_input : ℕ → Routes → Outcome (Unit {0})
unfolding debug_indices debug_rest
check_indices_input step [] = ok tt
check_indices_input step ((route, indices) ∷ routes) =
    let rest = check_indices_input step routes in
    if length indices % step == 0
    then rest
    else err (
        general client "Invalid indices input detected" (
          some (
            codes "Expected argument pattern with tuples of size "
            ++ (to_decimal step ++ (codes ", but found indices: " ++ debug_indices indices)))))

-- `iter().step_by(step).map(|idx| idx / step)`; `skip` counts the elements still to pass.
unfoldable pub every : ℕ → ℕ → List ℕ → List ℕ
every step skip [] = []
every step zero (i ∷ is) = (i / step) ∷ every step (step - 1) is
every step (suc skip) (i ∷ is) = every step skip is

-- `&indices[..indices.len() - 1]`, which panics on an empty list.
unfoldable pub without_last : List ℕ → Outcome (List ℕ)
without_last [] = panicked
without_last (i ∷ []) = ok []
without_last (i ∷ j ∷ is) = do rest ← without_last (j ∷ is); ok (i ∷ rest)

-- The places of one route's results, computed as the iterator comes to them.
unfoldable pub result_indices : MultiSlotArgPattern → List ℕ → Outcome (List ℕ)
unfolding without_last every
result_indices keys_only indices = ok indices
result_indices keys_and_last_arg indices = without_last indices
result_indices key_with_two_arg_triples indices = ok (every 3 0 indices)
result_indices key_value_pairs indices = ok (every 2 0 indices)

unfoldable pub check_pattern : MultiSlotArgPattern → Routes → Outcome (Unit {0})
unfolding check_indices_input
check_pattern keys_only routes = ok tt
check_pattern keys_and_last_arg routes = ok tt
check_pattern key_with_two_arg_triples routes = check_indices_input 3 routes
check_pattern key_value_pairs routes = check_indices_input 2 routes

-- The fold over the replies: a reply that is no array sets the sum back to 0.
unfoldable pub total_len_from : ℕ → List Value → ℕ
total_len_from acc [] = acc
total_len_from acc (array vs ∷ rest) = total_len_from (length (to_list vs) + acc) rest
total_len_from acc (_ ∷ rest) = total_len_from 0 rest

unfoldable pub total_len : List Value → ℕ
unfolding total_len_from
total_len values = total_len_from 0 values

-- `results[*index] = value` for each index and value.
unfoldable pub write_results : List ℕ → List Value → List Value → Outcome (List Value)
write_results (i ∷ is) (v ∷ vs) results =
    let rest = write_results is vs (set results i v) in
    if ltb i (length results) then rest else panicked
write_results _ _ results = ok results

-- The loop over the routes and their replies, with its assertion.
unfoldable pub place_results :
    MultiSlotArgPattern → Routes → List Value → List Value → Outcome (List Value)
unfolding result_indices write_results
place_results pattern ((route, indices) ∷ routes) (array vs ∷ values) results = do
  places ← result_indices pattern indices
  results' ←
      (if length (to_list vs) == length places
        then write_results places (to_list vs) results
        else panicked)
  place_results pattern routes values results'
place_results pattern ((route, indices) ∷ routes) (_ ∷ values) results = do
  places ← result_indices pattern indices
  unexpected "expected array of values as response"
place_results pattern _ _ results = ok results

abbrev mismatch : String
mismatch = "Mismatch in the number of multi-slot results compared to the expected result count."

unfoldable pub combine_and_sort_array_results :
    List Value → Routes → MultiSlotArgPattern → Outcome Value
unfolding check_pattern total_len place_results
combine_and_sort_array_results values routes pattern = do
  _ ← check_pattern pattern routes
  let results = replicate (total_len values) nil
  (if length values == length routes
      then (do sorted ← place_results pattern routes values results; ok (array (of_list sorted)))
      else err (
          general client mismatch (
            some (
              codes "Expected: "
              ++ (to_decimal (length values)
                  ++ (codes ", Found: " ++ to_decimal (length routes)))))))

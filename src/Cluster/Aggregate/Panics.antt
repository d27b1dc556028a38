-- ===== src/Cluster/Aggregate/Panics.antt =====
-- A reply of the wrong type among those that `combine_and_sort_array_results` of
-- redis/src/cluster_handling/routing.rs puts together.
use redis_rs.Base.{
  ℕ, suc, ◌≡◌, refl, List, [], ◌∷◌, ◌==◌, ◌+◌, ◌++◌, ap, length, length-append, true, false,
  Bool-cases, ltb, arith, inl, inr,
}
use redis_rs.Value.Integer.{ℤ}
use redis_rs.Value.Defs.{Value, Values, item, array, int, to_list, of_list, ok, panicked, ◌>>=◌}
use redis_rs.Cluster.Slot.{Route}
use redis_rs.Cluster.BaseRouting.{keys_only}
use redis_rs.Cluster.MultiShard.{Routes}
use redis_rs.Cluster.Aggregate.{
  check_pattern, combine_and_sort_array_results, place_results, result_indices, total_len,
  total_len_from, write_results,
}

-- A last reply that is an integer sets the length of the result back to 0.
total_len_from-int :
    (acc : ℕ) (more : List Value) (n : ℤ) → total_len_from acc (more ++ int n ∷ []) ≡ 0
unfolding total_len_from
total_len_from-int acc [] n = refl
total_len_from-int acc (array vs ∷ more) n = total_len_from-int (length (to_list vs) + acc) more n
total_len_from-int acc (_ ∷ more) n = total_len_from-int 0 more n

-- No item of an array that holds something has a place in an empty result.
first_place-panics :
    (r : Route) (is : List ℕ) (routes : Routes) (v : Value) (vs : Values) (rest : List Value)
    → place_results keys_only ((r, is) ∷ routes) (array (item v vs) ∷ rest) [] ≡ panicked
unfolding place_results result_indices write_results to_list
first_place-panics r [] routes v vs rest =
    let e : (suc (length (to_list vs)) == 0) ≡ false = ground arith in rw e refl
first_place-panics r (i ∷ is) routes v vs rest =
    let never : ltb i 0 ≡ false = ground arith in
    elim (Bool-cases (suc (length (to_list vs)) == suc (length is))) [
      | inl same ↦ rw same (rw never refl)
      | inr other ↦ rw other refl
    ]

-- For a command on keys alone, with as many replies as routes: if the first reply is an array that holds
-- something and the last one an integer, the merge panics, whatever the replies between them are, and
-- does not return the error for a reply that is no array. The integer sets the length of the result back
-- to 0, and the items of the first array are out of bounds.
pub combine_and_sort_array_results-total_len :
    (r : Route) (is : List ℕ) (routes : Routes) (v : Value) (vs : Values) (more : List Value)
    (n : ℤ)
    → length routes ≡ length more + 1
    → combine_and_sort_array_results
        (array (item v vs) ∷ (more ++ int n ∷ []))
        ((r, is) ∷ routes)
        keys_only
      ≡ panicked
unfolding combine_and_sort_array_results check_pattern total_len total_len_from
combine_and_sort_array_results-total_len r is routes v vs more n h =
    let same : (suc (length (more ++ int n ∷ [])) == suc (length routes)) ≡ true =
      ground (arith, length-append more (int n ∷ [])) in
    rw (same, total_len_from-int)
      (ap (λ o. o >>= λ sorted. ok (array (of_list sorted)))
        (first_place-panics r is routes v vs (more ++ int n ∷ [])))

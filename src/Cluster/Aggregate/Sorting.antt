-- ===== src/Cluster/Aggregate/Sorting.antt =====
-- Splitting a command on many keys and sorting the replies back gives the reply to the whole command.
use redis_rs.Base.{
  ℕ, suc, ◌+◌, ◌≤◌, ◌<◌, ◌≡◌, refl, ap, sym, ◌∙◌, subst, ◌⊎◌, inl, inr, true, some, List, [], ◌∷◌,
  ◌++◌, map, Bytes, length, get_elem?, set, replicate, ◌==◌, lt→ltb, if◌then◌else◌, arith,
  length-append, length-set, length-map, length-replicate, get_elem?-set_self, get_elem?-set_ne,
  eq_of_get_elem?, ==_iff,
}
use mathlib.Core.List.Permᴰ
use mathlib.Core.List.{Permᴰ}
use native.Mathlib.Decide.{ℕ_discrete}
use redis_rs.Value.Defs.{Value, nil, array, to_list, of_list, to_list-of_list, ok, ◌>>=◌, panicked}
use redis_rs.Cluster.Slot.{Route}
use redis_rs.Cluster.BaseRouting.{keys_only}
use redis_rs.Cluster.MultiShard.{Routes}
use redis_rs.Cluster.MultiShard.Keys.{all_indices, positions, AllIndices}
use redis_rs.Cluster.Aggregate.{
  result_indices, write_results, place_results, total_len_from, total_len, check_pattern,
  combine_and_sort_array_results,
}

-- `j` stands in the list.
abbrev Occurs : ℕ → List ℕ → Type 0
Occurs j [] = ⊥
Occurs j (i ∷ is) = (i ≡ j) ⊎ Occurs j is

Occurs-perm : {is js : List ℕ} (j : ℕ) → Permᴰ is js → Occurs j is → Occurs j js
Occurs-perm j Permᴰ.nil o = o
Occurs-perm j (Permᴰ.cons e p) (inl here) = inl (sym e ∙ here)
Occurs-perm j (Permᴰ.cons e p) (inr later) = inr (Occurs-perm j p later)
Occurs-perm j (Permᴰ.swap e e') (inl here) = inr (inl (sym e ∙ here))
Occurs-perm j (Permᴰ.swap e e') (inr (inl here)) = inl (sym e' ∙ here)
Occurs-perm j (Permᴰ.swap e e') (inr (inr later)) = inr (inr later)
Occurs-perm j (Permᴰ.trans p q) o = Occurs-perm j q (Occurs-perm j p o)

pub AllIndices-perm :
    {is js : List ℕ} (P : ℕ → Type 0) → Permᴰ is js → AllIndices P is → AllIndices P js
AllIndices-perm P Permᴰ.nil h = h
AllIndices-perm P (Permᴰ.cons e p) h = (subst P e h.0, AllIndices-perm P p h.1)
AllIndices-perm P (Permᴰ.swap e e') h = (subst P e' h.1.0, (subst P e h.0, h.1.1))
AllIndices-perm P (Permᴰ.trans p q) h = AllIndices-perm P q (AllIndices-perm P p h)

length-perm : {is js : List ℕ} → Permᴰ is js → length is ≡ length js
length-perm Permᴰ.nil = refl
length-perm (Permᴰ.cons e p) = ap suc (length-perm p)
length-perm (Permᴰ.swap e e') = refl
length-perm (Permᴰ.trans p q) = length-perm p ∙ length-perm q

-- Writing `h i` at each index in turn.
write_each : (ℕ → Value) → List ℕ → List Value → List Value
write_each h [] results = results
write_each h (i ∷ is) results = write_each h is (set results i (h i))

length-write_each :
    (h : ℕ → Value) (is : List ℕ) (results : List Value)
    → length (write_each h is results) ≡ length results
unfolding write_each
length-write_each h [] results = refl
length-write_each h (i ∷ is) results =
    length-write_each h is (set results i (h i)) ∙ length-set results i (h i)

-- A place that holds its value keeps it.
write_each-keeps :
    (h : ℕ → Value) (is : List ℕ) (results : List Value) (j : ℕ)
    → j < length results
    → get_elem? results j ≡ some (h j)
    → get_elem? (write_each h is results) j ≡ some (h j)
unfolding write_each
write_each-keeps h [] results j l e = e
write_each-keeps h (i ∷ is) results j l e =
    write_each-keeps h is (set results i (h i)) j (omega (arith, length-set results i (h i))) here
  where
    here : get_elem? (set results i (h i)) j ≡ some (h j)
    here = elim (ℕ_discrete i j) [
      | yes same ↦
          subst (λ x. get_elem? (set results i (h i)) x ≡ some (h x)) same
            (get_elem?-set_self results i (h i) (subst (λ x. x < length results) (sym same) l))
      | no other ↦ get_elem?-set_ne results i j (h i) other ∙ e
    ]

-- A place that is written holds its value in the end.
write_each-Occurs :
    (h : ℕ → Value) (is : List ℕ) (results : List Value) (j : ℕ)
    → j < length results
    → Occurs j is
    → get_elem? (write_each h is results) j ≡ some (h j)
unfolding write_each
write_each-Occurs h [] results j l o = absurd o
write_each-Occurs h (i ∷ is) results j l (inl same) =
    write_each-keeps h is (set results i (h i)) j (omega (arith, length-set results i (h i))) (
      subst (λ x. get_elem? (set results i (h i)) x ≡ some (h x)) same
        (get_elem?-set_self results i (h i) (subst (λ x. x < length results) (sym same) l)))
write_each-Occurs h (i ∷ is) results j l (inr later) =
    write_each-Occurs h is (set results i (h i)) j (omega (arith, length-set results i (h i))) later

write_results-write_each :
    (h : ℕ → Value) (is : List ℕ) (results : List Value)
    → AllIndices (λ i. i < length results) is
    → write_results is (map h is) results ≡ ok (write_each h is results)
unfolding write_results write_each
write_results-write_each h [] results a = refl
write_results-write_each h (i ∷ is) results a = rw (lt→ltb i (length results) a.0) (
    write_results-write_each h is (set results i (h i))
      (subst (λ n. AllIndices (λ j. j < n) is) (sym (length-set results i (h i))) a.1))

write_each-append :
    (h : ℕ → Value) (is js : List ℕ) (results : List Value)
    → write_each h (is ++ js) results ≡ write_each h js (write_each h is results)
unfolding write_each
write_each-append h [] js results = refl
write_each-append h (i ∷ is) js results = write_each-append h is js (set results i (h i))

-- The reply to the part of one route, if `h i` is the reply for the argument at `i`.
abbrev pub reply : (ℕ → Value) → Route × List ℕ → Value
reply h (route, indices) = array (of_list (map h indices))

pub AllIndices-left : (P : ℕ → Type 0) (is js : List ℕ) → AllIndices P (is ++ js) → AllIndices P is
AllIndices-left P [] js a = tt
AllIndices-left P (i ∷ is) js a = (a.0, AllIndices-left P is js a.1)

pub AllIndices-right : (P : ℕ → Type 0) (is js : List ℕ) → AllIndices P (is ++ js) → AllIndices P js
AllIndices-right P [] js a = a
AllIndices-right P (i ∷ is) js a = AllIndices-right P is js a.1

length-reply :
    (h : ℕ → Value) (indices : List ℕ) → length (to_list (of_list (map h indices))) ≡ length indices
length-reply h indices = ap length (to_list-of_list (map h indices)) ∙ length-map h indices

-- The body of the loop, for one route.
placed :
    (h : ℕ → Value) (is : List ℕ) (vs results : List Value)
    → vs ≡ map h is
    → AllIndices (λ i. i < length results) is
    → (if length vs == length is then write_results is vs results else panicked)
      ≡ ok (write_each h is results)
placed h is vs results e a =
    let same : (length vs == length is) ≡ true =
      (==_iff (length vs) (length is)).1 (ap length e ∙ length-map h is) in
    rw same (ap (λ l. write_results is l results) e ∙ write_results-write_each h is results a)

place_results-reply :
    (h : ℕ → Value) (routes : Routes) (results : List Value)
    → AllIndices (λ i. i < length results) (all_indices routes)
    → place_results keys_only routes (map (reply h) routes) results
      ≡ ok (write_each h (all_indices routes) results)
unfolding place_results result_indices all_indices write_each
place_results-reply h [] results a = refl
place_results-reply h ((route, indices) ∷ routes) results a =
    let here = AllIndices-left (λ i. i < length results) indices (all_indices routes) a in
    let later = AllIndices-right (λ i. i < length results) indices (all_indices routes) a in
    let written = write_each h indices results in
    ap (λ m. m >>= place_results keys_only routes (map (reply h) routes))
      (placed h indices (to_list (of_list (map h indices))) results
        (to_list-of_list (map h indices)) here)
    ∙ (place_results-reply h routes written (
          subst (λ n. AllIndices (λ i. i < n) (all_indices routes))
            (sym (length-write_each h indices results)) later)
        ∙ ap ok (sym (write_each-append h indices (all_indices routes) results)))

total_len_from-reply :
    (acc : ℕ) (h : ℕ → Value) (routes : Routes)
    → total_len_from acc (map (reply h) routes) ≡ acc + length (all_indices routes)
unfolding total_len_from all_indices
total_len_from-reply acc h [] = omega arith
total_len_from-reply acc h ((route, indices) ∷ routes) = omega (
  arith,
  length-append indices (all_indices routes),
  total_len_from-reply (length (to_list (of_list (map h indices))) + acc) h routes,
  length-reply h indices,
)

total_len-reply :
    (h : ℕ → Value) (routes : Routes)
    → total_len (map (reply h) routes) ≡ length (all_indices routes)
unfolding total_len
total_len-reply h routes = omega (arith, total_len_from-reply 0 h routes)

pub AllIndices-positions :
    (n curr : ℕ) (ks : List Bytes)
    → curr + length ks ≤ n
    → AllIndices (λ i. i < n) (positions curr ks)
unfolding positions
AllIndices-positions n curr [] l = tt
AllIndices-positions n curr (k ∷ ks) l =
    (omega arith, AllIndices-positions n (curr + 1) ks (omega arith))

Occurs-positions :
    (j curr : ℕ) (ks : List Bytes) → curr ≤ j → j < curr + length ks → Occurs j (positions curr ks)
unfolding positions
Occurs-positions j curr [] l u = absurd (omega arith)
Occurs-positions j curr (k ∷ ks) l u = elim (ℕ_discrete curr j) [
  | yes here ↦ inl here
  | no later ↦ inr (Occurs-positions j (curr + 1) ks (omega arith) (omega arith))
]

length-positions : (curr : ℕ) (ks : List Bytes) → length (positions curr ks) ≡ length ks
unfolding positions
length-positions curr [] = refl
length-positions curr (k ∷ ks) = ap suc (length-positions (curr + 1) ks)

-- What is sorted back is the reply for every argument, in the order of the arguments.
sorted-map :
    (h : ℕ → Value) (f : Bytes → Value) (ks : List Bytes) (is : List ℕ)
    → ((j : ℕ) → j < length ks → get_elem? (map f ks) j ≡ some (h j))
    → Permᴰ is (positions 0 ks)
    → write_each h is (replicate (length is) nil) ≡ map f ks
sorted-map h f ks is e p =
    let blank = replicate (length is) nil in
    let len : length (write_each h is blank) ≡ length ks =
      length-write_each h is blank
      ∙ (length-replicate (length is) nil ∙ (length-perm p ∙ length-positions 0 ks)) in
    eq_of_get_elem? (write_each h is blank) (map f ks) (len ∙ sym (length-map f ks)) (λ j l.
      let below : j < length ks = omega (arith, len) in
      write_each-Occurs h is blank j (omega (arith, length-write_each h is blank))
        (Occurs-perm j (Permᴰ.symm p) (Occurs-positions j 0 ks (omega arith) (omega arith)))
      ∙ sym (e j below))

pub combine-reply :
    (h : ℕ → Value) (f : Bytes → Value) (ks : List Bytes) (routes : Routes)
    → ((j : ℕ) → j < length ks → get_elem? (map f ks) j ≡ some (h j))
    → Permᴰ (all_indices routes) (positions 0 ks)
    → combine_and_sort_array_results (map (reply h) routes) routes keys_only
      ≡ ok (array (of_list (map f ks)))
unfolding combine_and_sort_array_results check_pattern
combine-reply h f ks routes e p =
    let same : (length (map (reply h) routes) == length routes) ≡ true =
      (==_iff _ _).1 (length-map (reply h) routes) in
    let total = total_len-reply h routes in
    let blank = replicate (length (all_indices routes)) nil in
    let within : AllIndices (λ i. i < length blank) (all_indices routes) =
      AllIndices-perm (λ i. i < length blank) (Permᴰ.symm p)
        (AllIndices-positions (length blank) 0 ks (
          omega (
            arith,
            length-replicate (length (all_indices routes)) nil,
            length-perm p,
            length-positions 0 ks,
          ))) in
    rw same (
      ap
        (λ n. place_results keys_only routes (map (reply h) routes) (replicate n nil) >>= λ s.
          ok (array (of_list s)))
        total
      ∙ (ap (λ m. m >>= λ s. ok (array (of_list s))) (place_results-reply h routes blank within)
          ∙ ap (λ s. ok (array (of_list s))) (sorted-map h f ks (all_indices routes) e p)))

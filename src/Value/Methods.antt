-- ===== src/Value/Methods.antt =====
-- The methods of `Value` in redis/src/types.rs.
use redis_rs.Base.{
  ℕ, ◌*◌, ◌%◌, ◌≡◌, refl, Bool, true, false, List, [], ◌∷◌, ◌++◌, Option, none, some, ◌==◌,
  if◌then◌else◌,
}
use redis_rs.Errors.Server.{ServerError, requires_action}
use redis_rs.Errors.Redis.{RedisError}
use redis_rs.Errors.Redis
use redis_rs.Value.Defs.{
  Value, Values, Pairs, nil, int, bulk_string, array, simple_string, okay, map, attribute, set,
  double, boolean, verbatim_string, big_number, push, server_error, end, item, end_pairs, pair,
  Outcome, ok, err, ◌>>=◌, length_values, length_pairs,
}

unfoldable pub looks_like_cursor : Value → Bool
looks_like_cursor (array (item (bulk_string c) (item (array vs) end))) = true
looks_like_cursor _ = false

-- `Value::as_sequence`, and `into_sequence` up to the value that it hands back.
unfoldable pub as_sequence : Value → Option Values
as_sequence (array items) = some items
as_sequence (set items) = some items
as_sequence nil = some end
as_sequence _ = none

unfoldable pub is_collection_of_len : Value → ℕ → Bool
unfolding length_values length_pairs
is_collection_of_len (array items) n = length_values items == n
is_collection_of_len (set items) n = length_values items == n
is_collection_of_len (map items) n = length_pairs items * 2 == n
is_collection_of_len _ n = false

unfoldable pub is_error_that_requires_action : Value → Bool
unfolding requires_action
is_error_that_requires_action (server_error e) = requires_action e
is_error_that_requires_action _ = false

-- `MapIter::Array` with its `next`: two items at a time.
unfoldable pub pair_up : Values → Pairs
pair_up end = end_pairs
pair_up (item k end) = end_pairs
pair_up (item k (item v vs)) = pair k v (pair_up vs)

-- `Value::as_map_iter` with the pairs that the iterator yields.
unfoldable pub as_map_iter : Value → Option Pairs
unfolding length_values pair_up
as_map_iter (array items) = if length_values items % 2 == 0 then some (pair_up items) else none
as_map_iter (map items) = some items
as_map_iter _ = none

-- `Value::extract_error`, `extract_error_vec` and `extract_error_map`.
unfoldable mutual
  pub extract_error : Value → Outcome Value
  extract_error (array vs) = do vs' ← extract_error_vec vs; ok (array vs')
  extract_error (map ps) = do ps' ← extract_error_map ps; ok (map ps')
  extract_error (attribute d ps) = do
    d' ← extract_error d
    ps' ← extract_error_map ps
    ok (attribute d' ps')
  extract_error (set vs) = do vs' ← extract_error_vec vs; ok (set vs')
  extract_error (push k vs) = do vs' ← extract_error_vec vs; ok (push k vs')
  extract_error (server_error e) = err (Redis.server e)
  extract_error nil = ok nil
  extract_error (int n) = ok (int n)
  extract_error (bulk_string s) = ok (bulk_string s)
  extract_error (simple_string s) = ok (simple_string s)
  extract_error okay = ok okay
  extract_error (double d) = ok (double d)
  extract_error (boolean b) = ok (boolean b)
  extract_error (verbatim_string f s) = ok (verbatim_string f s)
  extract_error (big_number s) = ok (big_number s)

  pub extract_error_vec : Values → Outcome Values
  extract_error_vec end = ok end
  extract_error_vec (item v vs) = do
    v' ← extract_error v
    vs' ← extract_error_vec vs
    ok (item v' vs')

  pub extract_error_map : Pairs → Outcome Pairs
  extract_error_map end_pairs = ok end_pairs
  extract_error_map (pair k v ps) = do
    k' ← extract_error k
    v' ← extract_error v
    ps' ← extract_error_map ps
    ok (pair k' v' ps')

-- The server errors that a value holds, at any depth, in the order in which `extract_error` comes to
-- them.
unfoldable mutual
  pub errors_in : Value → List ServerError
  errors_in (array vs) = errors_in_vec vs
  errors_in (map ps) = errors_in_map ps
  errors_in (attribute d ps) = errors_in d ++ errors_in_map ps
  errors_in (set vs) = errors_in_vec vs
  errors_in (push k vs) = errors_in_vec vs
  errors_in (server_error e) = e ∷ []
  errors_in nil = []
  errors_in (int n) = []
  errors_in (bulk_string s) = []
  errors_in (simple_string s) = []
  errors_in okay = []
  errors_in (double d) = []
  errors_in (boolean b) = []
  errors_in (verbatim_string f s) = []
  errors_in (big_number s) = []

  pub errors_in_vec : Values → List ServerError
  errors_in_vec end = []
  errors_in_vec (item v vs) = errors_in v ++ errors_in_vec vs

  pub errors_in_map : Pairs → List ServerError
  errors_in_map end_pairs = []
  errors_in_map (pair k v ps) = errors_in k ++ (errors_in v ++ errors_in_map ps)

-- The first error of a list as the result, or the value if there is none.
unfoldable pub first_error {ℓ} : {A : Type ℓ} → List ServerError → A → Outcome A
first_error [] a = ok a
first_error (e ∷ es) a = err (Redis.server e)

abbrev Extracts : Value → Type 0
Extracts v = extract_error v ≡ first_error (errors_in v) v

abbrev ExtractsVec : Values → Type 0
ExtractsVec vs = extract_error_vec vs ≡ first_error (errors_in_vec vs) vs

abbrev ExtractsMap : Pairs → Type 0
ExtractsMap ps = extract_error_map ps ≡ first_error (errors_in_map ps) ps

-- Running one step after another takes the first error of both.
first_error-bind {ℓ κ} :
    {A : Type ℓ} {B : Type κ} {C : Type κ} (es ds : List ServerError) (a : A) (b : B)
    (f : A → B → C)
    → (first_error es a >>= λ a'. first_error ds b >>= λ b'. ok (f a' b'))
      ≡ first_error (es ++ ds) (f a b)
unfolding first_error
first_error-bind [] [] a b f = refl
first_error-bind [] (d ∷ ds) a b f = refl
first_error-bind (e ∷ es) ds a b f = refl

first_error-map {ℓ κ} :
    {A : Type ℓ} {B : Type κ} (es : List ServerError) (a : A) (f : A → B)
    → (first_error es a >>= λ a'. ok (f a')) ≡ first_error es (f a)
unfolding first_error
first_error-map [] a f = refl
first_error-map (e ∷ es) a f = refl

first_error-bind₃ :
    (cs ds es : List ServerError) (k v : Value) (ps : Pairs)
    → (do
      k' ← first_error cs k
      v' ← first_error ds v
      ps' ← first_error es ps
      ok (pair k' v' ps'))
      ≡ first_error (cs ++ (ds ++ es)) (pair k v ps)
unfolding first_error
first_error-bind₃ [] ds es k v ps = first_error-bind ds es v ps (pair k)
first_error-bind₃ (c ∷ cs) ds es k v ps = refl

extract_error-Extracts : (v : Value) → Extracts v
unfolding extract_error errors_in
extract_error-Extracts v = elim v as Extracts ExtractsVec ExtractsMap [
  | array (vs → ih) ↦ rw ih (first_error-map (errors_in_vec vs) vs array)
  | map (ps → ih) ↦ rw ih (first_error-map (errors_in_map ps) ps map)
  | attribute (d → ih) (ps → ihs) ↦
      rw (ih, ihs) (first_error-bind (errors_in d) (errors_in_map ps) d ps attribute)
  | set (vs → ih) ↦ rw ih (first_error-map (errors_in_vec vs) vs set)
  | push k (vs → ih) ↦ rw ih (first_error-map (errors_in_vec vs) vs (push k))
  | item (w → ih) (vs → ihs) ↦
      rw (ih, ihs) (first_error-bind (errors_in w) (errors_in_vec vs) w vs item)
  | pair (k → ihk) (w → ihw) (ps → ihs) ↦
      rw (ihk, ihw, ihs) (first_error-bind₃ (errors_in k) (errors_in w) (errors_in_map ps) k w ps)
  | server_error e ↦ unfold first_error in refl
  | _ ↦ unfold first_error in refl
]

-- `extract_error` gives the value back unchanged if no server error stands in it at any depth, and
-- otherwise fails with the first one; it never panics.
pub extract_error-first_error : (v : Value) → extract_error v ≡ first_error (errors_in v) v
extract_error-first_error v = extract_error-Extracts v

-- ===== src/Value/Convert.antt =====
-- Conversions of replies to Rust values: `FromRedisValue` of redis/src/types.rs for numbers, vectors
-- and tuples of one. The text that `Debug` gives a value is a parameter.
use redis_rs.Base.{
  Option, none, some, List, [], ◌∷◌, ◌++◌, Bytes, String, codes, if◌then◌else◌, ℕ, parse_unsigned,
}
use redis_rs.Errors.Redis.{parsing}
use redis_rs.Value.Integer.{ℤ, parse_i64, as_unsigned}
use redis_rs.Value.Defs.{
  Value, nil, int, bulk_string, array, simple_string, map, attribute, set, double, Values, end,
  item, Pairs, end_pairs, pair, Outcome, ok, err, ◌>>=◌,
}
use redis_rs.Resp.Text.{is_utf8}

-- `get_inner_value` and `get_owned_inner_value`.
unfoldable pub get_inner_value : Value → Value
get_inner_value (attribute v attributes) = v
get_inner_value v = v

module _ (debug : Value → Bytes) where
  -- `invalid_type_error!`.
  unfoldable pub invalid_type_error {ℓ} : {A : Type ℓ} → Value → String → Outcome A
  invalid_type_error v detail =
      err (
        parsing
          (codes "\"" ++ (codes detail ++ (codes "\" (value was " ++ (debug v ++ codes ")")))))

  module _ {ℓ} {A : Type ℓ} where
    -- The number that a text holds, if it does.
    unfoldable pub parsed : Value → Option A → Outcome A
    unfolding invalid_type_error
    parsed v none = invalid_type_error v "Could not convert from string."
    parsed v (some n) = ok n

    -- `from_redis_value_for_num_internal!`, for the casts from `i64` and `f64` and the `parse` of a type.
    unfoldable pub from_inner_num : (ℤ → A) → (ℕ → A) → (Bytes → Option A) → Value → Outcome A
    unfolding parsed invalid_type_error is_utf8
    from_inner_num of_int of_double parse (int n) = ok (of_int n)
    from_inner_num of_int of_double parse (simple_string s) = parsed (simple_string s) (parse s)
    from_inner_num of_int of_double parse (bulk_string s) =
        if is_utf8 s
        then parsed (bulk_string s) (parse s)
        else err (parsing (codes "Invalid UTF-8"))
    from_inner_num of_int of_double parse (double d) = ok (of_double d)
    from_inner_num of_int of_double parse v =
        invalid_type_error v "Response type not convertible to numeric."

    unfoldable pub from_num : (ℤ → A) → (ℕ → A) → (Bytes → Option A) → Value → Outcome A
    unfolding get_inner_value from_inner_num
    from_num of_int of_double parse v = from_inner_num of_int of_double parse (get_inner_value v)

    -- `from_redis_values`.
    unfoldable pub from_values : (Value → Outcome A) → Values → Outcome (List A)
    from_values from end = ok []
    from_values from (item v vs) = do x ← from v; xs ← from_values from vs; ok (x ∷ xs)

    -- Each entry of a map is converted as a map of its own.
    unfoldable pub from_entries : (Value → Outcome A) → Pairs → Outcome (List A)
    from_entries from end_pairs = ok []
    from_entries from (pair k v ps) = do
      x ← from (map (pair k v end_pairs))
      xs ← from_entries from ps
      ok (x ∷ xs)

    -- `Vec<T>`, for the conversion and the `from_byte_vec` of `T`.
    unfoldable pub from_vec :
        (Value → Outcome A) → (Bytes → Outcome (List A)) → Value → Outcome (List A)
    unfolding from_values from_entries invalid_type_error
    from_vec from from_byte_vec (bulk_string s) = from_byte_vec s
    from_vec from from_byte_vec (array vs) = from_values from vs
    from_vec from from_byte_vec (set vs) = from_values from vs
    from_vec from from_byte_vec (map ps) = from_entries from ps
    from_vec from from_byte_vec nil = ok []
    from_vec from from_byte_vec v = invalid_type_error v "Response type not vector compatible."

    unfoldable pub only : (Value → Outcome A) → Value → String → Values → Outcome A
    unfolding invalid_type_error
    only from v detail (item x end) = from x
    only from v detail vs = invalid_type_error v detail

    -- The tuple `(T,)`.
    unfoldable pub from_inner_tuple : (Value → Outcome A) → Value → Outcome A
    unfolding only invalid_type_error
    from_inner_tuple from (array vs) = only from (array vs) "Array response of wrong dimension" vs
    from_inner_tuple from (set vs) = only from (array vs) "Set response of wrong dimension" vs
    from_inner_tuple from (map ps) = invalid_type_error (map ps) "Map response of wrong dimension"
    from_inner_tuple from v = invalid_type_error v "Not a Array response"

    unfoldable pub from_tuple : (Value → Outcome A) → Value → Outcome A
    unfolding get_inner_value from_inner_tuple
    from_tuple from v = from_inner_tuple from (get_inner_value v)

  -- `Vec<Value>`: a text is one value.
  unfoldable pub from_vec_value : Value → Outcome (List Value)
  unfolding from_vec
  from_vec_value v = from_vec (λ x. ok x) (λ s. ok (bulk_string s ∷ [])) v

-- The casts of `f64` to integers, and the text that `Debug` gives a value.
pub record Conversions : Type 0 where
  pub debug : Value → Bytes
  pub f64_as_i64 : ℕ → ℤ
  pub f64_as_u8 : ℕ → ℕ

module _ (conversions : Conversions) where
  unfoldable pub from_i64 : Value → Outcome ℤ
  unfolding from_num
  from_i64 v = from_num conversions.debug (λ n. n) conversions.f64_as_i64 parse_i64 v

  -- `Vec<u8>`.
  unfoldable pub from_bytes : Value → Outcome Bytes
  unfolding from_num from_vec
  from_bytes v =
      from_vec conversions.debug
        (from_num conversions.debug (as_unsigned 256) conversions.f64_as_u8 (parse_unsigned 255))
        (λ s. ok s) v

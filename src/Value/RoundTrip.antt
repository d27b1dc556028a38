-- ===== src/Value/RoundTrip.antt =====
-- Values that commands carry, read back from the texts that were written: `ToRedisArgs` against
-- `FromRedisValue` of redis/src/types.rs.
use redis_rs.Base.{
  ℕ, ◌*◌, ◌%◌, ◌==◌, ◌≤◌, ◌≡◌, refl, ◌∙◌, Bool, true, false, some, List, [], ◌∷◌, Bytes, codes,
  length, to_decimal, to_decimal-IsDigits, parse_unsigned-to_decimal, arith,
}
use redis_rs.Value.Defs.{Value, bulk_string, array, Values, end, item, length_values, Outcome, ok}
use redis_rs.Value.Methods.{as_map_iter, pair_up}
use redis_rs.Value.Convert.{
  from_vec, from_values, from_num, from_inner_num, get_inner_value, parsed,
}
use redis_rs.Value.Args.{
  ToRedisArgs, FromRedisValue, default_args, default_from, make_arg_iter, default_is_single,
  only_element, len_or_only, num_of_vec, write_map, num_of_map, from_pairs, from_inner_map,
  unsigned_args, unsigned_from, bool_args, bool_from, from_inner_bool, string_args, string_from,
  from_inner_string, option_args, option_from, write_option, num_of_option, from_inner_option,
}
use redis_rs.Value.Integer.{ℤ}
use redis_rs.Resp.Text.{is_utf8}
use redis_rs.Resp.Digits.{is_utf8-digits}

-- The texts as the reply that holds them.
unfoldable pub bulks : List Bytes → Values
bulks [] = end
bulks (b ∷ bs) = item (bulk_string b) (bulks bs)

-- The value is written as one argument, and is what that text is converted to.
pub record ReadsBack {A : Type 0} (to : ToRedisArgs A) (from : FromRedisValue A) (x : A)
    : Type 0 where
  text : Bytes
  written : to.write x ≡ text ∷ []
  counted : to.num_of_args x ≡ 1
  converted : from.from (bulk_string text) ≡ ok x

module _ {A : Type 0} (to : ToRedisArgs A) (from : FromRedisValue A) where
  pub data AllReadBack : List A → Type 0 where
    none_left : AllReadBack []
    first : {x : A} {xs : List A} → ReadsBack to from x → AllReadBack xs → AllReadBack (x ∷ xs)

module _ {A : Type 0} (debug : Value → Bytes) (write : A → List Bytes) (num : A → ℕ)
    (from : Value → Outcome A) where
  from_values-make_arg_iter :
      (xs : List A)
      → AllReadBack (default_args write num) (default_from from) xs
      → from_values debug from (bulks (make_arg_iter write xs)) ≡ ok xs
  unfolding from_values bulks make_arg_iter
  from_values-make_arg_iter [] none_left = refl
  from_values-make_arg_iter (x ∷ xs) (first r rs) =
      rw (r.written, r.converted, from_values-make_arg_iter xs rs)

  length-make_arg_iter :
      (xs : List A)
      → AllReadBack (default_args write num) (default_from from) xs
      → length (make_arg_iter write xs) ≡ length xs
  unfolding make_arg_iter
  length-make_arg_iter [] none_left = refl
  length-make_arg_iter (x ∷ xs) (first r rs) = rw (r.written, length-make_arg_iter xs rs)

  -- For a type of elements with the default methods of both traits, which `u8` is not: a vector whose
  -- elements read back is written, one argument for each element, so that the array of
  -- what was written is converted to that vector, and `num_of_args` of the vector is the number of the
  -- arguments that were written.
  pub from_vec-make_arg_iter :
      (xs : List A)
      → AllReadBack (default_args write num) (default_from from) xs
      → (from_vec debug from (only_element from) (array (bulks (make_arg_iter write xs))) ≡ ok xs)
        × (num_of_vec (default_args write num) xs ≡ length (make_arg_iter write xs))
  unfolding from_vec num_of_vec len_or_only default_is_single
  from_vec-make_arg_iter [] h = (from_values-make_arg_iter [] h, rw (length-make_arg_iter [] h))
  from_vec-make_arg_iter (x ∷ []) (first r rs) = (
    from_values-make_arg_iter (x ∷ []) (first r rs),
    rw (r.counted, length-make_arg_iter (x ∷ []) (first r rs)),
  )
  from_vec-make_arg_iter (x ∷ (y ∷ xs)) h =
      (from_values-make_arg_iter (x ∷ (y ∷ xs)) h, rw (length-make_arg_iter (x ∷ (y ∷ xs)) h))

module _ {K V : Type 0} (to_key : ToRedisArgs K) (to_value : ToRedisArgs V)
    (from_key : FromRedisValue K) (from_value : FromRedisValue V) where
  pub data EntriesReadBack : List (K × V) → Type 0 where
    no_entries : EntriesReadBack []
    entry :
        {k : K} {v : V} {m : List (K × V)}
        → ReadsBack to_key from_key k
        → ReadsBack to_value from_value v
        → EntriesReadBack m
        → EntriesReadBack ((k, v) ∷ m)

double_is_even : (n : ℕ) → (2 * n % 2 == 0) ≡ true
double_is_even n = ground arith

module _ {K V : Type 0} (debug : Value → Bytes) (to_key : ToRedisArgs K) (to_value : ToRedisArgs V)
    (from_key : FromRedisValue K) (from_value : FromRedisValue V) where
  -- The arguments of a map whose keys and values read back.
  record Written (m : List (K × V)) : Type 0 where
    args : List Bytes
    write_map_ok : write_map to_key to_value m ≡ ok args
    two_each : length args ≡ 2 * num_of_map to_key to_value m
    values_two_each : length_values (bulks args) ≡ 2 * num_of_map to_key to_value m
    read : from_pairs debug from_key from_value (pair_up (bulks args)) ≡ ok m

  written : (m : List (K × V)) → EntriesReadBack to_key to_value from_key from_value m → Written m
  unfolding write_map num_of_map from_pairs pair_up bulks length_values
  written [] no_entries = record {
    args = [];
    write_map_ok = refl;
    two_each = refl;
    values_two_each = refl;
    read = refl;
  }
  written ((k, v) ∷ m) (entry rk rv rs) =
      let w = written m rs in
      record {
        args = rk.text ∷ (rv.text ∷ w.args);
        write_map_ok = rw (rk.counted, rv.counted, rk.written, rv.written, w.write_map_ok);
        two_each = omega (arith, w.two_each);
        values_two_each = omega (arith, w.values_two_each);
        read = rw (rk.converted, rv.converted, w.read);
      }

  from_inner_map-array :
      (items : Values)
      → (length_values items % 2 == 0) ≡ true
      → from_inner_map debug from_key from_value (array items)
        ≡ from_pairs debug from_key from_value (pair_up items)
  unfolding from_inner_map as_map_iter
  from_inner_map-array items h = rw (from_inner_map, as_map_iter, h)

  -- A map whose keys and values read back is written without a panic, as two arguments for each entry,
  -- twice what `num_of_args` of the map is, and the array of what was written is converted to the
  -- entries of that map.
  pub from_inner_map-write_map :
      (m : List (K × V))
      → EntriesReadBack to_key to_value from_key from_value m
      → (args : List Bytes) × (write_map to_key to_value m ≡ ok args)
        × (length args ≡ 2 * num_of_map to_key to_value m)
        × (from_inner_map debug from_key from_value (array (bulks args)) ≡ ok m)
  unfolding num_of_map
  from_inner_map-write_map m h =
      let w = written m h in
      (
        w.args,
        w.write_map_ok,
        w.two_each,
        from_inner_map-array (bulks w.args)
              (rw (w.values_two_each, num_of_map, double_is_even (length m)))
            ∙ w.read,
      )

module _ (debug : Value → Bytes) where
  -- `itoa` formats a number in decimal.
  pub unsigned-ReadsBack :
      (format : ℕ → Bytes)
      → ((n : ℕ) → format n ≡ to_decimal n)
      → (max : ℕ) (of_double : ℕ → ℕ) (n : ℕ) → n ≤ max
      → ReadsBack (unsigned_args format) (unsigned_from debug max of_double) n
  unfolding from_num from_inner_num get_inner_value parsed
  unsigned-ReadsBack format decimal max of_double n h = record {
    text = to_decimal n;
    written = rw (decimal n);
    counted = refl;
    converted =
        rw (
          is_utf8-digits (to_decimal n) (to_decimal-IsDigits n),
          parse_unsigned-to_decimal max n h,
        );
  }

  pub bool-ReadsBack : (b : Bool) → ReadsBack bool_args (bool_from debug) b
  unfolding from_inner_bool get_inner_value
  bool-ReadsBack true = record {
    text = codes "1";
    written = refl;
    counted = refl;
    converted = refl;
  }
  bool-ReadsBack false = record {
    text = codes "0";
    written = refl;
    counted = refl;
    converted = refl;
  }

  pub string-ReadsBack :
      (display_i64 : ℤ → Bytes) (display_f64 : ℕ → Bytes) (utf8_error : Bytes → Bytes) (s : Bytes)
      → is_utf8 s ≡ true
      → ReadsBack string_args (string_from debug display_i64 display_f64 utf8_error) s
  unfolding from_inner_string get_inner_value
  string-ReadsBack display_i64 display_f64 utf8_error s h = record {
    text = s;
    written = refl;
    counted = refl;
    converted = rw h;
  }

  pub option-ReadsBack :
      {A : Type 0} (to : ToRedisArgs A) (from : FromRedisValue A) (x : A)
      → ReadsBack to from x
      → ReadsBack (option_args to) (option_from debug from) (some x)
  unfolding from_inner_option get_inner_value write_option num_of_option
  option-ReadsBack to from x r = record {
    text = r.text;
    written = r.written;
    counted = r.counted;
    converted = rw r.converted;
  }

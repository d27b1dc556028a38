-- ===== src/Value/Args.antt =====
-- Values as arguments of commands, and back: `ToRedisArgs` and `FromRedisValue` of redis/src/types.rs for
-- unsigned integers, booleans, texts, options, vectors and maps. What a value writes is the list of its
-- arguments. A map is the list of its entries, and the `Display` of an `f64` a parameter.
use redis_rs.Base.{
  ℕ, zero, ◌+◌, Bool, true, false, ◌&&◌, not, Option, none, some, List, [], ◌∷◌, ◌++◌, Bytes, codes,
  length, leb, bytes_eq, parse_unsigned, if◌then◌else◌,
}
use redis_rs.Errors.Redis.{parsing}
use redis_rs.Value.Integer.{ℤ, pos, as_unsigned}
use redis_rs.Value.Defs.{
  Value, nil, int, bulk_string, simple_string, okay, boolean, double, verbatim_string, Pairs,
  end_pairs, pair, Outcome, ok, err, panicked, ◌>>=◌,
}
use redis_rs.Value.Methods.{as_map_iter}
use redis_rs.Value.Convert.{get_inner_value, invalid_type_error, from_num, from_vec}
use redis_rs.Resp.Text.{is_utf8}

-- `write_args_from_slice` and `is_single_vec_arg` are those of the type of the elements.
pub record ToRedisArgs (A : Type 0) : Type 0 where
  pub write : A → List Bytes
  pub num_of_args : A → ℕ
  pub write_slice : List A → List Bytes
  pub is_single_vec_arg : List A → Bool

unfoldable pub make_arg_iter : {A : Type 0} → (A → List Bytes) → List A → List Bytes
make_arg_iter write [] = []
make_arg_iter write (x ∷ xs) = write x ++ make_arg_iter write xs

unfoldable pub default_is_single : {A : Type 0} → (A → ℕ) → List A → Bool
default_is_single num (x ∷ []) = leb (num x) 1
default_is_single num _ = false

-- The trait with its default methods.
abbrev pub default_args : {A : Type 0} → (A → List Bytes) → (A → ℕ) → ToRedisArgs A
default_args write num = record {
  write = write;
  num_of_args = num;
  write_slice = make_arg_iter write;
  is_single_vec_arg = default_is_single num;
}

abbrev pub unsigned_args : (ℕ → Bytes) → ToRedisArgs ℕ
unsigned_args format = default_args (λ n. format n ∷ []) (λ n. 1)

-- A vector of `u8` is one argument.
abbrev pub byte_args : (ℕ → Bytes) → ToRedisArgs ℕ
byte_args format = record {
  write = λ n. format n ∷ [];
  num_of_args = λ n. 1;
  write_slice = λ bytes. bytes ∷ [];
  is_single_vec_arg = λ bytes. true;
}

abbrev pub bool_args : ToRedisArgs Bool
bool_args = default_args (λ b. (if b then codes "1" else codes "0") ∷ []) (λ b. 1)

abbrev pub string_args : ToRedisArgs Bytes
string_args = default_args (λ s. s ∷ []) (λ s. 1)

module _ {A : Type 0} (to : ToRedisArgs A) where
  unfoldable pub write_option : Option A → List Bytes
  write_option none = []
  write_option (some x) = to.write x

  unfoldable pub num_of_option : Option A → ℕ
  num_of_option none = 0
  num_of_option (some x) = to.num_of_args x

  abbrev pub option_args : ToRedisArgs (Option A)
  option_args = default_args write_option num_of_option

  unfoldable pub len_or_only : List A → ℕ
  len_or_only (x ∷ []) = to.num_of_args x
  len_or_only xs = length xs

  unfoldable pub num_of_vec : List A → ℕ
  unfolding len_or_only
  num_of_vec xs = if to.is_single_vec_arg xs then 1 else len_or_only xs

  -- Slices, arrays and `Vec<T>`.
  abbrev pub vec_args : ToRedisArgs (List A)
  vec_args = default_args to.write_slice num_of_vec

module _ {K V : Type 0} (to_key : ToRedisArgs K) (to_value : ToRedisArgs V) where
  -- The assertion that a key and a value are at most one argument each panics.
  unfoldable pub write_map : List (K × V) → Outcome (List Bytes)
  write_map [] = ok []
  write_map ((k, v) ∷ m) =
      let rest = (do args ← write_map m; ok (to_key.write k ++ (to_value.write v ++ args))) in
      if leb (to_key.num_of_args k) 1 && leb (to_value.num_of_args v) 1 then rest else panicked

  unfoldable pub num_of_map : List (K × V) → ℕ
  num_of_map m = length m

pub record FromRedisValue (A : Type 0) : Type 0 where
  pub from : Value → Outcome A
  pub from_byte_vec : Bytes → Outcome (List A)

-- The default `from_byte_vec`: one element.
unfoldable pub only_element : {A : Type 0} → (Value → Outcome A) → Bytes → Outcome (List A)
only_element from s = do x ← from (bulk_string s); ok (x ∷ [])

abbrev pub default_from : {A : Type 0} → (Value → Outcome A) → FromRedisValue A
default_from from = record { from = from; from_byte_vec = only_element from }

unfoldable pub is_zero : ℤ → Bool
is_zero (pos zero) = true
is_zero _ = false

module _ (debug : Value → Bytes) where
  -- An unsigned integer of the given largest value; `of_double` is the cast of an `f64`.
  abbrev pub unsigned_from : ℕ → (ℕ → ℕ) → FromRedisValue ℕ
  unsigned_from max of_double =
      default_from (from_num debug (as_unsigned (max + 1)) of_double (parse_unsigned max))

  unfoldable pub from_inner_bool : Value → Outcome Bool
  unfolding is_zero invalid_type_error bytes_eq
  from_inner_bool nil = ok false
  from_inner_bool (int n) = ok (not (is_zero n))
  from_inner_bool (simple_string s) =
      if bytes_eq s (codes "1")
      then ok true
      else if bytes_eq s (codes "0")
      then ok false
      else invalid_type_error debug (simple_string s) "Response status not valid boolean"
  from_inner_bool (bulk_string s) =
      if bytes_eq s (codes "1")
      then ok true
      else if bytes_eq s (codes "0")
      then ok false
      else invalid_type_error debug (bulk_string s) "Response type not bool compatible."
  from_inner_bool (boolean b) = ok b
  from_inner_bool okay = ok true
  from_inner_bool v = invalid_type_error debug v "Response type not bool compatible."

  abbrev pub bool_from : FromRedisValue Bool
  bool_from = default_from (λ v. from_inner_bool (get_inner_value v))

  module _ (display_i64 : ℤ → Bytes) (display_f64 : ℕ → Bytes) (utf8_error : Bytes → Bytes) where
    -- `from_redis_value` of `String`, with the text of the error for bytes that are no text.
    unfoldable pub from_inner_string : Value → Outcome Bytes
    unfolding is_utf8 invalid_type_error
    from_inner_string (bulk_string s) = if is_utf8 s then ok s else err (parsing (utf8_error s))
    from_inner_string okay = ok (codes "OK")
    from_inner_string (simple_string s) = ok s
    from_inner_string (verbatim_string format text) = ok text
    from_inner_string (double d) = ok (display_f64 d)
    from_inner_string (int n) = ok (display_i64 n)
    from_inner_string v = invalid_type_error debug v "Response type not string compatible."

    abbrev pub string_from : FromRedisValue Bytes
    string_from = default_from (λ v. from_inner_string (get_inner_value v))

  module _ {A : Type 0} (from_element : FromRedisValue A) where
    unfoldable pub from_inner_option : Value → Outcome (Option A)
    from_inner_option nil = ok none
    from_inner_option v = do x ← from_element.from v; ok (some x)

    abbrev pub option_from : FromRedisValue (Option A)
    option_from = default_from (λ v. from_inner_option (get_inner_value v))

    abbrev pub vec_from : FromRedisValue (List A)
    vec_from = default_from (from_vec debug from_element.from from_element.from_byte_vec)

  module _ {K V : Type 0} (from_key : FromRedisValue K) (from_value : FromRedisValue V) where
    unfoldable pub from_pairs : Pairs → Outcome (List (K × V))
    from_pairs end_pairs = ok []
    from_pairs (pair k v ps) = do
      key ← from_key.from k
      value ← from_value.from v
      rest ← from_pairs ps
      ok ((key, value) ∷ rest)

    unfoldable pub from_inner_map : Value → Outcome (List (K × V))
    unfolding as_map_iter from_pairs invalid_type_error
    from_inner_map nil = ok []
    from_inner_map v = elim (as_map_iter v) [
      | none ↦ invalid_type_error debug v "Response type not map compatible"
      | some ps ↦ from_pairs ps
    ]

    abbrev pub map_from : FromRedisValue (List (K × V))
    map_from = default_from (λ v. from_inner_map (get_inner_value v))

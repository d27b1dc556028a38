-- ===== src/Value/Defs.antt =====
-- `Value`, `PushKind`, `VerbatimFormat` of redis/src/types.rs, and the results of fallible code.
use redis_rs.Base.{ℕ, suc, Bool, Bytes, List, [], ◌∷◌, ◌≡◌, refl, ap}
use redis_rs.Errors.Server.{ServerError}
use redis_rs.Errors.Redis.{RedisError}
use redis_rs.Value.Integer.{ℤ}

-- `RedisResult`, with one more case for a panic (an assertion or an index out of bounds).
pub data Outcome {ℓ} (A : Type ℓ) : Type ℓ where
  ok : A → Outcome A
  err : RedisError → Outcome A
  panicked : Outcome A

infixl 5 ◌>>=◌
abbrev pub ◌>>=◌ {ℓ κ} : {A : Type ℓ} {B : Type κ} → Outcome A → (A → Outcome B) → Outcome B
ok a >>= f = f a
err e >>= f = err e
panicked >>= f = panicked

pub data VerbatimFormat : Type 0 where
  unknown : Bytes → VerbatimFormat
  markdown text : VerbatimFormat

pub data PushKind : Type 0 where
  disconnection : PushKind
  other : Bytes → PushKind
  invalidate message pmessage smessage unsubscribe punsubscribe sunsubscribe subscribe psubscribe
        ssubscribe :
      PushKind

-- `Values` is `Vec<Value>` and `Pairs` is `Vec<(Value, Value)>`. A `Double` is kept as the 64 bits of
-- its `f64`.
mutual
  pub data Value : Type 0 where
    nil : Value
    int : ℤ → Value
    bulk_string : Bytes → Value
    array : Values → Value
    simple_string : Bytes → Value
    okay : Value
    map : Pairs → Value
    attribute : Value → Pairs → Value
    set : Values → Value
    double : ℕ → Value
    boolean : Bool → Value
    verbatim_string : VerbatimFormat → Bytes → Value
    big_number : Bytes → Value
    push : PushKind → Values → Value
    server_error : ServerError → Value

  pub data Values : Type 0 where
    end : Values
    item : Value → Values → Values

  pub data Pairs : Type 0 where
    end_pairs : Pairs
    pair : Value → Value → Pairs → Pairs

unfoldable pub to_list : Values → List Value
to_list end = []
to_list (item v vs) = v ∷ to_list vs

unfoldable pub of_list : List Value → Values
of_list [] = end
of_list (v ∷ vs) = item v (of_list vs)

pub to_list-of_list : (vs : List Value) → to_list (of_list vs) ≡ vs
unfolding to_list of_list
to_list-of_list [] = refl
to_list-of_list (v ∷ vs) = ap (◌∷◌ v) (to_list-of_list vs)

unfoldable pub length_values : Values → ℕ
length_values end = 0
length_values (item v vs) = suc (length_values vs)

unfoldable pub length_pairs : Pairs → ℕ
length_pairs end_pairs = 0
length_pairs (pair k v ps) = suc (length_pairs ps)

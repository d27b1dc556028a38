-- ===== src/Base/Decimal.antt =====
-- Decimal numbers as the code prints and reads them: `itoa`/`Display` of an unsigned integer, and
-- `str::parse` to an integer of a bounded width (the standard library's `from_str`).
use Prim.Native.Nat.{ℕ, zero, suc, ◌+◌, ◌-◌, ◌*◌, ◌/◌, ◌%◌, ◌≤◌, ◌<◌}
use mathlib.Core.Path.{◌≡◌, refl, ◌∙◌}
use mathlib.Core.List.{[], ◌∷◌, ◌++◌}
use mathlib.Core.Bool.{Bool, true, ◌&&◌}
use mathlib.Core.Logic.{inl, inr}
use mathlib.Core.Option.{Option, none, some}
use native.Mathlib.Omega.{arith}
use redis_rs.Base.Tests.{leb, ltb, ◌==◌, if◌then◌else◌, Bool-cases}
use redis_rs.Base.ByteStrings.{Bytes, codes}

-- The digits of `n`, most significant first; `n + 1` rounds are enough.
unfoldable pub to_decimal_from : ℕ → ℕ → Bytes
to_decimal_from zero n = []
to_decimal_from (suc f) n =
    let more = to_decimal_from f (n / 10) ++ ((b'0' + n % 10) ∷ []) in
    if ltb n 10 then (b'0' + n) ∷ [] else more

unfoldable pub to_decimal : ℕ → Bytes
unfolding to_decimal_from
to_decimal n = to_decimal_from (suc n) n

unfoldable pub is_digit : ℕ → Bool
is_digit c = leb b'0' c && leb c b'9'

-- The digits of a number of at most `max`; any other byte, or a larger value, is an error.
unfoldable pub parse_digits : ℕ → ℕ → Bytes → Option ℕ
unfolding is_digit
parse_digits max acc [] = some acc
parse_digits max acc (c ∷ cs) =
    let rest = parse_digits max (acc * 10 + (c - b'0')) cs in
    if is_digit c && leb (acc * 10 + (c - b'0')) max then rest else none

-- `s.parse::<uN>()` with `max` the type's largest value: one leading `+` is allowed.
unfoldable pub parse_unsigned : ℕ → Bytes → Option ℕ
unfolding parse_digits
parse_unsigned max [] = none
parse_unsigned max (c ∷ []) = parse_digits max 0 (c ∷ [])
parse_unsigned max (c ∷ d ∷ cs) =
    let signed = parse_digits max 0 (d ∷ cs) in
    let plain = parse_digits max 0 (c ∷ d ∷ cs) in if c == b'+' then signed else plain

bind_digits : ℕ → Bytes → Option ℕ → Option ℕ
bind_digits max ys none = none
bind_digits max ys (some a) = parse_digits max a ys

parse_digits-append :
    (max acc : ℕ) (xs ys : Bytes)
    → parse_digits max acc (xs ++ ys) ≡ bind_digits max ys (parse_digits max acc xs)
unfolding parse_digits bind_digits
parse_digits-append max acc [] ys = refl
parse_digits-append max acc (c ∷ xs) ys =
    ground (arith, parse_digits-append max (acc * 10 + (c - b'0')) xs ys)

parse_digits-to_decimal_from :
    (max f n : ℕ) → n < f → n ≤ max → parse_digits max 0 (to_decimal_from f n) ≡ some n
unfolding to_decimal_from
parse_digits-to_decimal_from max zero n h m = elim h [ ]
parse_digits-to_decimal_from max (suc f) n h m = elim (Bool-cases (ltb n 10)) [
  | inl small ↦ rw small (unfold parse_digits in ground arith)
  | inr large ↦
      rw
        (
          large,
          parse_digits-append max 0 (to_decimal_from f (n / 10)) _,
          parse_digits-to_decimal_from max f (n / 10) (ground arith) (omega arith),
        )
        (unfold parse_digits bind_digits in ground arith)
]

pub data IsDigits : Bytes → Type 0 where
  one : (c : ℕ) → is_digit c ≡ true → IsDigits (c ∷ [])
  more : (c : ℕ) (cs : Bytes) → is_digit c ≡ true → IsDigits cs → IsDigits (c ∷ cs)

IsDigits-append : (xs ys : Bytes) → IsDigits xs → IsDigits ys → IsDigits (xs ++ ys)
IsDigits-append xs ys (one c h) k = more c ys h k
IsDigits-append xs ys (more c cs h r) k = more c (cs ++ ys) h (IsDigits-append cs ys r k)

to_decimal_from-IsDigits : (f n : ℕ) → n < f → IsDigits (to_decimal_from f n)
unfolding to_decimal_from
to_decimal_from-IsDigits zero n h = elim h [ ]
to_decimal_from-IsDigits (suc f) n h = elim (Bool-cases (ltb n 10)) [
  | inl small ↦ rw small (one (b'0' + n) (unfold is_digit in ground arith))
  | inr large ↦ rw large (
      IsDigits-append _ _ (to_decimal_from-IsDigits f (n / 10) (ground arith))
        (one (b'0' + n % 10) (unfold is_digit in ground arith)))
]

pub to_decimal-IsDigits : (n : ℕ) → IsDigits (to_decimal n)
unfolding to_decimal
to_decimal-IsDigits n = to_decimal_from-IsDigits (suc n) n (omega arith)

parse_unsigned-digits :
    (max : ℕ) (xs : Bytes) → IsDigits xs → parse_unsigned max xs ≡ parse_digits max 0 xs
unfolding parse_unsigned is_digit
parse_unsigned-digits max xs (one c h) = refl
parse_unsigned-digits max xs (more c cs h (one d k)) = ground arith
parse_unsigned-digits max xs (more c cs h (more d ds k r)) = ground arith

pub parse_digits-to_decimal : (max n : ℕ) → n ≤ max → parse_digits max 0 (to_decimal n) ≡ some n
unfolding to_decimal
parse_digits-to_decimal max n h = parse_digits-to_decimal_from max (suc n) n (omega arith) h

-- What was printed is read back, if it fits the type.
pub parse_unsigned-to_decimal : (max n : ℕ) → n ≤ max → parse_unsigned max (to_decimal n) ≡ some n
parse_unsigned-to_decimal max n h =
    parse_unsigned-digits max (to_decimal n) (to_decimal-IsDigits n)
    ∙ parse_digits-to_decimal max n h

to_decimal_test : to_decimal 16384 ≡ codes "16384"
unfolding to_decimal
to_decimal_test = refl

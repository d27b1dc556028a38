-- ===== src/Value/Integer.antt =====
-- `i64`: the standard library's signed 64-bit integers. Values are kept in range by those who make
-- them; an operation that could leave the range says what the code does then.
use redis_rs.Base.{
  ℕ, zero, suc, ◌+◌, ◌-◌, ◌%◌, Bool, true, false, Option, none, some, [], ◌∷◌, Bytes, leb, ◌==◌,
  if◌then◌else◌, parse_digits, ◌≤◌,
}

-- `negsuc n` is -(n + 1).
pub data ℤ : Type 0 where
  pos : ℕ → ℤ
  negsuc : ℕ → ℤ

abbrev pub i64_max : ℕ
i64_max = 9223372036854775807

-- `i64::MIN` is -2^63, `negsuc i64_max`.
abbrev pub IsI64 : ℤ → Type 0
IsI64 (pos n) = n ≤ i64_max
IsI64 (negsuc n) = n ≤ i64_max

unfoldable pub leb_ℤ : ℤ → ℤ → Bool
leb_ℤ (pos a) (pos b) = leb a b
leb_ℤ (pos a) (negsuc b) = false
leb_ℤ (negsuc a) (pos b) = true
leb_ℤ (negsuc a) (negsuc b) = leb b a

-- `std::cmp::min(a, b)`.
unfoldable pub min_ℤ : ℤ → ℤ → ℤ
unfolding leb_ℤ
min_ℤ a b = if leb_ℤ a b then a else b

-- -(n): the value of a `-` sign before a magnitude.
unfoldable pub negate : ℕ → ℤ
negate zero = pos 0
negate (suc n) = negsuc n

-- a - b.
unfoldable pub sub_ℕ : ℕ → ℕ → ℤ
sub_ℕ a b = if leb b a then pos (a - b) else negsuc (b - a - 1)

infixl 65 ◌+ℤ◌
unfoldable pub ◌+ℤ◌ : ℤ → ℤ → ℤ
unfolding sub_ℕ
pos a +ℤ pos b = pos (a + b)
pos a +ℤ negsuc b = sub_ℕ a (suc b)
negsuc a +ℤ pos b = sub_ℕ b (suc a)
negsuc a +ℤ negsuc b = negsuc (suc (a + b))

unfoldable pub in_i64 : ℤ → Bool
in_i64 (pos n) = leb n i64_max
in_i64 (negsuc n) = leb n i64_max

-- `n as u16`, `n as usize` on a 64-bit target: the low bits in two's complement, `m` being 2^bits.
unfoldable pub as_unsigned : ℕ → ℤ → ℕ
as_unsigned m (pos n) = n % m
as_unsigned m (negsuc n) = m - 1 - (n % m)

unfoldable pub signed_digits : Bool → Bytes → Option ℤ
signed_digits true digits = elim (parse_digits i64_max 0 digits) [
  | none ↦ none
  | some n ↦ some (pos n)
]
signed_digits false digits = elim (parse_digits (i64_max + 1) 0 digits) [
  | none ↦ none
  | some n ↦ some (negate n)
]

-- `s.parse::<i64>()`: an optional sign, then at least one digit, within the range.
unfoldable pub parse_i64 : Bytes → Option ℤ
unfolding parse_digits signed_digits negate
parse_i64 [] = none
parse_i64 (c ∷ []) = signed_digits true (c ∷ [])
parse_i64 (c ∷ d ∷ cs) =
    if c == b'+'
    then signed_digits true (d ∷ cs)
    else if c == b'-'
    then signed_digits false (d ∷ cs)
    else signed_digits true (c ∷ d ∷ cs)

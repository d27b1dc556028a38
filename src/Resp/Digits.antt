-- ===== src/Resp/Digits.antt =====
-- A line of decimal digits is read as the number that it stands for.
use redis_rs.Base.{
  ℕ, ◌≡◌, refl, ap, sym, ◌∙◌, Bool, true, false, not, ◌&&◌, List, [], ◌∷◌, ◌++◌, map, Bytes,
  IsDigits, one, more, is_digit, arith, subst,
}
use mathlib.Core.List.{reverse, reverse-append, reverse-reverse}
use redis_rs.Value.Integer.{parse_i64, signed_digits}
use redis_rs.Resp.Stream.{IsLine}
use redis_rs.Resp.Text.{white_space, starts_with, prefix_len, strip_from, trim, is_utf8}

-- The first byte is a digit.
data HeadDigit : Bytes → Type 0 where
  head : (c : ℕ) (cs : Bytes) → is_digit c ≡ true → HeadDigit (c ∷ cs)

HeadDigit-append : (xs ys : Bytes) → HeadDigit xs → HeadDigit (xs ++ ys)
HeadDigit-append xs ys (head c cs h) = head c (cs ++ ys) h

HeadDigit-IsDigits : (xs : Bytes) → IsDigits xs → HeadDigit xs
HeadDigit-IsDigits xs (one c h) = head c [] h
HeadDigit-IsDigits xs (more c cs h r) = head c cs h

HeadDigit-reverse : (xs : Bytes) → IsDigits xs → HeadDigit (reverse xs)
HeadDigit-reverse xs (one c h) = head c [] h
HeadDigit-reverse xs (more c cs h r) =
    subst HeadDigit (sym (reverse-append (c ∷ []) cs))
      (HeadDigit-append (reverse cs) (reverse (c ∷ [])) (HeadDigit-reverse cs r))

-- None of the texts begins with a digit.
heads_ok : List Bytes → Bool
heads_ok [] = true
heads_ok ([] ∷ ws) = false
heads_ok ((c ∷ cs) ∷ ws) = not (is_digit c) && heads_ok ws

prefix_len-digit :
    (ws : List Bytes) (c : ℕ) (cs : Bytes)
    → heads_ok ws ≡ true
    → is_digit c ≡ true
    → prefix_len ws (c ∷ cs) ≡ 0
unfolding prefix_len starts_with heads_ok
prefix_len-digit [] c cs h d = refl
prefix_len-digit ([] ∷ ws) c cs h d = cc
prefix_len-digit ((x ∷ xs) ∷ ws) c cs h d = ground (arith, prefix_len-digit ws c cs)

strip_from-digit :
    (ws : List Bytes) (xs : Bytes) → heads_ok ws ≡ true → HeadDigit xs → strip_from ws 0 xs ≡ xs
unfolding strip_from
strip_from-digit ws xs h (head c cs d) = rw (prefix_len-digit ws c cs h d, strip_from)

pub trim-digits : (xs : Bytes) → IsDigits xs → trim xs ≡ xs
unfolding trim
trim-digits xs d =
    ap (λ s. reverse (strip_from (map reverse white_space) 0 (reverse s)))
      (strip_from-digit white_space xs (unfold white_space heads_ok is_digit in refl)
        (HeadDigit-IsDigits xs d))
    ∙ (ap reverse (
          strip_from-digit (map reverse white_space) (reverse xs)
            (unfold white_space heads_ok is_digit in refl) (HeadDigit-reverse xs d))
        ∙ reverse-reverse xs)

pub is_utf8-digits : (xs : Bytes) → IsDigits xs → is_utf8 xs ≡ true
unfolding is_utf8 is_digit
is_utf8-digits xs (one c h) = ground arith
is_utf8-digits xs (more c cs h r) = ground (arith, is_utf8-digits cs r)

pub IsLine-digits : (xs : Bytes) → IsDigits xs → IsLine xs
unfolding is_digit
IsLine-digits xs (one c h) = (ground arith, tt)
IsLine-digits xs (more c cs h r) = (ground arith, IsLine-digits cs r)

pub parse_i64-digits : (xs : Bytes) → IsDigits xs → parse_i64 xs ≡ signed_digits true xs
unfolding parse_i64 is_digit
parse_i64-digits xs (one c h) = refl
parse_i64-digits xs (more c cs h (one d k)) = ground arith
parse_i64-digits xs (more c cs h (more d ds k r)) = ground arith

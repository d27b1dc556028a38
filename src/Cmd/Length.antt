-- ===== src/Cmd/Length.antt =====
-- The length that is reserved for a command is the length that is written.
use redis_rs.Base.{
  ℕ, zero, suc, ◌+◌, ◌/◌, ◌<◌, ◌≤◌, ◌≡◌, refl, ap, ◌∙◌, sym, List, [], ◌∷◌, ◌++◌, Bytes, length,
  ltb, length-append, to_decimal, to_decimal_from, Bool-cases, inl, inr, arith, lt→ltb,
}
use redis_rs.Cmd.{Cmd, Arg, simple, cursor, args_iter}
use redis_rs.Cmd.Pack.{
  countdigits, countdigits_loop, bulklen, item_len, items_len, args_len, cursor_or_zero, cmd_len,
  item_bytes, write_items, write_command, write_packed_command, crlf,
}

-- The digits do not depend on the rounds, if they are enough.
digits_fuel : (f g n : ℕ) → n < f → n < g → to_decimal_from f n ≡ to_decimal_from g n
unfolding to_decimal_from
digits_fuel zero g n h k = elim h [ ]
digits_fuel (suc f) zero n h k = elim k [ ]
digits_fuel (suc f) (suc g) n h k = elim (Bool-cases (ltb n 10)) [
  | inl small ↦ rw small
  | inr large ↦ rw (large, digits_fuel f g (n / 10) (ground arith) (ground arith))
]

length-to_decimal_small : (n : ℕ) → n < 10 → length (to_decimal n) ≡ 1
unfolding to_decimal
length-to_decimal_small n h = rw (lt→ltb n 10 h)

length-to_decimal_large :
    (n : ℕ) → 10 ≤ n → length (to_decimal n) ≡ length (to_decimal (n / 10)) + 1
unfolding to_decimal
length-to_decimal_large n h = elim (Bool-cases (ltb n 10)) [
  | inl small ↦ absurd (ground arith)
  | inr large ↦
      rw (large, digits_fuel n (suc (n / 10)) (n / 10) (omega arith) (omega arith))
        (length-append (to_decimal_from (suc (n / 10)) (n / 10)) _)
]

length-to_decimal_2 : (n : ℕ) → 10 ≤ n → n < 100 → length (to_decimal n) ≡ 2
length-to_decimal_2 n h k =
    omega (arith, length-to_decimal_large n h, length-to_decimal_small (n / 10) (omega arith))

length-to_decimal_3 : (n : ℕ) → 100 ≤ n → n < 1000 → length (to_decimal n) ≡ 3
length-to_decimal_3 n h k = omega (
  arith,
  length-to_decimal_large n (omega arith),
  length-to_decimal_2 (n / 10) (omega arith) (omega arith),
)

length-to_decimal_4 : (n : ℕ) → 1000 ≤ n → n < 10000 → length (to_decimal n) ≡ 4
length-to_decimal_4 n h k = omega (
  arith,
  length-to_decimal_large n (omega arith),
  length-to_decimal_3 (n / 10) (omega arith) (omega arith),
)

-- Four digits at a time.
length-to_decimal_more :
    (n : ℕ) → 10000 ≤ n → length (to_decimal n) ≡ length (to_decimal (n / 10000)) + 4
length-to_decimal_more n h =
    let e : n / 10 / 10 / 10 / 10 ≡ n / 10000 = omega arith in
    rw (← e) (
      omega (
        arith,
        length-to_decimal_large n (omega arith),
        length-to_decimal_large (n / 10) (omega arith),
        length-to_decimal_large (n / 10 / 10) (omega arith),
        length-to_decimal_large (n / 10 / 10 / 10) (omega arith),
      ))

countdigits_loop-length :
    (f v result : ℕ) → v < f → countdigits_loop f v result + 1 ≡ result + length (to_decimal v)
unfolding countdigits_loop
countdigits_loop-length zero v result h = elim h [ ]
countdigits_loop-length (suc f) v result h = ground (
  arith,
  length-to_decimal_small v,
  length-to_decimal_2 v,
  length-to_decimal_3 v,
  length-to_decimal_4 v,
  length-to_decimal_more v,
  countdigits_loop-length f (v / 10000) (result + 4),
)

-- `countdigits` counts the decimal digits.
pub countdigits-length : (v : ℕ) → countdigits v ≡ length (to_decimal v)
unfolding countdigits
countdigits-length v = omega (arith, countdigits_loop-length (suc v) v 1 (omega arith))

module _ (format : ℕ → Bytes) (decimal : (n : ℕ) → format n ≡ to_decimal n) where
  length-format : (n : ℕ) → length (format n) ≡ countdigits n
  length-format n = ap length (decimal n) ∙ sym (countdigits-length n)

  length-item_bytes :
      (cur : ℕ) (item : Arg Bytes) → length (item_bytes format cur item) ≡ item_len cur item
  unfolding item_bytes item_len
  length-item_bytes cur cursor = length-format cur
  length-item_bytes cur (simple val) = refl

  length-write_items :
      (cur : ℕ) (args : List (Arg Bytes))
      → length (write_items format cur args) ≡ items_len cur args
  unfolding write_items items_len bulklen
  length-write_items cur [] = refl
  length-write_items cur (item ∷ rest) =
      let bytes = item_bytes format cur item in
      let tail = bytes ++ (crlf ++ write_items format cur rest) in
      omega (
        arith,
        length-append (format (length bytes)) (crlf ++ tail),
        length-append bytes (crlf ++ write_items format cur rest),
        length-write_items cur rest,
        length-item_bytes cur item,
        length-format (length bytes),
        ap countdigits (length-item_bytes cur item),
      )

  -- `cmd_len` is exactly the number of bytes that writing the command appends, whatever its
  -- arguments and cursor.
  pub length-write_packed_command :
      (out : Bytes) (c : Cmd) → length (write_packed_command format out c) ≡ length out + cmd_len c
  unfolding write_packed_command write_command cmd_len args_len
  length-write_packed_command out c =
      let args = args_iter c in
      let cur = cursor_or_zero c.cursor_value in
      let items = write_items format cur args in
      omega (
        arith,
        length-append out (b'*' ∷ (format (length args) ++ (crlf ++ items))),
        length-append (format (length args)) (crlf ++ items),
        length-write_items cur args,
        length-format (length args),
      )

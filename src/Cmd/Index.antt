-- ===== src/Cmd/Index.antt =====
-- `Cmd::arg_idx` against `Cmd::args_iter`.
use redis_rs.Base.{
  ℕ, zero, suc, ◌≤◌, ◌<◌, ◌≡◌, refl, ap, sym, ◌∙◌, Option, none, some, List, [], ◌∷◌, ◌++◌, map,
  Bytes, length, get_elem?, leb, ◌==◌, if◌then◌else◌, Bool-cases, inl, inr, arith, get_elem?-none,
  ◌&&◌, leb→le,
}
use redis_rs.Value.Defs.{ok}
use redis_rs.Cmd.{
  Cmd, Arg, simple, cursor, new, write_arg, slice, args_from, args_iter, offset, start_of,
  checked_slice, arg_idx,
}
use redis_rs.Cmd.Args.{
  Ascends, IsValid, write_args, new-IsValid, write_args-IsValid, args_iter-write_args,
}

-- No argument is a cursor.
abbrev pub AllSimple : List (Arg ℕ) → Type 0
AllSimple [] = Unit
AllSimple (simple i ∷ rest) = AllSimple rest
AllSimple (cursor ∷ rest) = ⊥

abbrev pub text_of : Option (Arg Bytes) → Option Bytes
text_of (some (simple s)) = some s
text_of _ = none

-- Where the argument at `i` begins, if those before begin at `prev`.
abbrev begin_of : ℕ → List (Arg ℕ) → ℕ → ℕ
begin_of prev args zero = prev
begin_of prev args (suc i) = offset (get_elem? args i)

-- Every argument is the slice between its offset and the one before.
args_from-slice :
    (buffer : Bytes) (prev : ℕ) (args : List (Arg ℕ)) (i : ℕ)
    → AllSimple args
    → i < length args
    → text_of (get_elem? (args_from buffer prev args) i)
      ≡ some (slice (begin_of prev args i) (offset (get_elem? args i)) buffer)
unfolding args_from offset
args_from-slice buffer prev [] i a h = absurd (omega arith)
args_from-slice buffer prev (cursor ∷ rest) i a h = absurd a
args_from-slice buffer prev (simple j ∷ rest) zero a h = refl
args_from-slice buffer prev (simple j ∷ rest) (suc zero) a h =
    args_from-slice buffer j rest zero a (omega arith)
args_from-slice buffer prev (simple j ∷ rest) (suc (suc i)) a h =
    args_from-slice buffer j rest (suc i) a (omega arith)

-- The offsets of the slice lie in order and within the buffer.
offsets_ordered :
    (b prev : ℕ) (args : List (Arg ℕ)) (i : ℕ)
    → AllSimple args
    → Ascends b prev args
    → i < length args
    → (begin_of prev args i ≤ offset (get_elem? args i))
      × (offset (get_elem? args i) ≤ b)
      × (prev ≤ offset (get_elem? args i))
unfolding offset
offsets_ordered b prev [] i a s h = absurd (omega arith)
offsets_ordered b prev (cursor ∷ rest) i a s h = absurd a
offsets_ordered b prev (simple j ∷ rest) zero a s h = (s.0, s.1, s.0)
offsets_ordered b prev (simple j ∷ rest) (suc zero) a s h =
    let below = offsets_ordered b j rest zero a s.2 (omega arith) in (below.0, below.1, omega arith)
offsets_ordered b prev (simple j ∷ rest) (suc (suc i)) a s h =
    let below = offsets_ordered b j rest (suc i) a s.2 (omega arith) in
    (below.0, below.1, omega arith)

first_end :
    (b : ℕ) (args : List (Arg ℕ)) (i : ℕ)
    → AllSimple args
    → Ascends b 0 args
    → i < length args
    → offset (get_elem? args 0) ≤ offset (get_elem? args i)
unfolding offset
first_end b [] i a s h = absurd (omega arith)
first_end b (cursor ∷ rest) i a s h = absurd a
first_end b (simple j ∷ rest) zero a s h = omega arith
first_end b (simple j ∷ rest) (suc i) a s h = (offsets_ordered b j rest i a s.2 (omega arith)).2

length-args_from :
    (buffer : Bytes) (prev : ℕ) (args : List (Arg ℕ))
    → length (args_from buffer prev args) ≡ length args
unfolding args_from
length-args_from buffer prev [] = refl
length-args_from buffer prev (simple i ∷ rest) = ap suc (length-args_from buffer i rest)
length-args_from buffer prev (cursor ∷ rest) = ap suc (length-args_from buffer prev rest)

start_of-begin_of : (c : Cmd) (i : ℕ) → start_of c i ≡ begin_of 0 c.args i
unfolding start_of
start_of-begin_of c zero = refl
start_of-begin_of c (suc i) = refl

-- A slice that ends after 0 and lies within the buffer is taken.
slice_taken :
    (from to : ℕ) (s : Bytes)
    → from ≤ to
    → to ≤ length s
    → 0 < to
    → (if from == 0 && to == 0 then ok none else checked_slice from to s)
      ≡ ok (some (slice from to s))
unfolding checked_slice
slice_taken from to s h k p = ground arith

-- In a command without cursors whose first argument is not empty, `arg_idx` never panics and gives
-- what `args_iter` has at that index, and `None` past the end.
pub arg_idx-args_iter :
    (c : Cmd) (i : ℕ)
    → IsValid c
    → AllSimple c.args
    → 0 < offset (get_elem? c.args 0)
    → arg_idx c i ≡ ok (text_of (get_elem? (args_iter c) i))
unfolding arg_idx args_iter
arg_idx-args_iter c i v a pos = elim (Bool-cases (leb (length c.args) i)) [
  | inl past ↦
      let over : length (args_from c.buffer 0 c.args) ≤ i =
        omega (arith, length-args_from c.buffer 0 c.args, leb→le (length c.args) i past) in
      rw past (sym (ap (λ o. ok (text_of o)) (get_elem?-none (args_from c.buffer 0 c.args) i over)))
  | inr within ↦
      let lt : i < length c.args = ground arith in
      let (up, fits, low) = offsets_ordered (length c.buffer) 0 c.args i a v.ascends lt in
      let some_end : 0 < offset (get_elem? c.args i) =
        omega (arith, first_end (length c.buffer) c.args i a v.ascends lt) in
      rw (within, start_of-begin_of c i)
        (slice_taken _ _ c.buffer up fits some_end
          ∙ ap ok (sym (args_from-slice c.buffer 0 c.args i a lt)))
]

AllSimple-append : (l : List (Arg ℕ)) (n : ℕ) → AllSimple l → AllSimple (l ++ simple n ∷ [])
AllSimple-append [] n h = tt
AllSimple-append (simple i ∷ l) n h = AllSimple-append l n h
AllSimple-append (cursor ∷ l) n h = absurd h

write_args-AllSimple :
    (c : Cmd) (xs : List Bytes) → AllSimple c.args → AllSimple (write_args c xs).args
unfolding write_args write_arg
write_args-AllSimple c [] a = a
write_args-AllSimple c (x ∷ xs) a =
    write_args-AllSimple (write_arg c x) xs (AllSimple-append c.args (length (c.buffer ++ x)) a)

-- The first argument stays where it is as others are written.
write_args-first :
    (c : Cmd) (xs : List Bytes) (d : Arg ℕ) (rest : List (Arg ℕ))
    → c.args ≡ d ∷ rest
    → get_elem? (write_args c xs).args 0 ≡ some d
unfolding write_args write_arg
write_args-first c [] d rest e = ap (λ l. get_elem? l 0) e
write_args-first c (x ∷ xs) d rest e =
    write_args-first (write_arg c x) xs d _ (ap (λ l. l ++ simple (length (c.buffer ++ x)) ∷ []) e)

text_of-map : (xs : List Bytes) (i : ℕ) → text_of (get_elem? (map simple xs) i) ≡ get_elem? xs i
text_of-map [] i = refl
text_of-map (x ∷ xs) zero = refl
text_of-map (x ∷ xs) (suc i) = text_of-map xs i

-- A command that is built from a non-empty name and any other arguments has them at their indices.
pub arg_idx-write_args :
    (b : ℕ) (name : Bytes) (rest : List Bytes) (i : ℕ)
    → arg_idx (write_args new ((b ∷ name) ∷ rest)) i ≡ ok (get_elem? ((b ∷ name) ∷ rest) i)
unfolding new write_arg write_args args_iter
arg_idx-write_args b name rest i =
    let words = (b ∷ name) ∷ rest in
    let c = write_args new words in
    let first : get_elem? c.args 0 ≡ some (simple (length (b ∷ name))) =
      write_args-first (write_arg new (b ∷ name)) rest _ [] (unfold write_arg in refl) in
    let pos : 0 < offset (get_elem? c.args 0) = rw first (unfold offset in omega arith) in
    arg_idx-args_iter c i (write_args-IsValid new words new-IsValid)
      (write_args-AllSimple new words tt) pos
    ∙ (ap (λ l. ok (text_of (get_elem? l i))) (args_iter-write_args new words new-IsValid)
        ∙ ap ok (text_of-map words i))

-- ===== src/Cmd/Args.antt =====
-- What was written to a command is what `args_iter` reads.
use redis_rs.Base.{
  ℕ, zero, suc, ◌-◌, ◌≤◌, ◌≡◌, refl, ap, sym, ◌∙◌, List, [], ◌∷◌, ◌++◌, Bytes, length, take, map,
  length-append, append-nil, append_assoc, arith,
}
use redis_rs.Cmd.{Cmd, Arg, simple, cursor, new, write_arg, cursor_arg, slice, args_from, args_iter}

-- The end of the last simple argument.
abbrev pub last_end : ℕ → List (Arg ℕ) → ℕ
last_end prev [] = prev
last_end prev (simple i ∷ rest) = last_end i rest
last_end prev (cursor ∷ rest) = last_end prev rest

-- The offsets do not fall, and do not pass `bound`.
abbrev pub Ascends : ℕ → ℕ → List (Arg ℕ) → Type 0
Ascends bound prev [] = Unit
Ascends bound prev (simple i ∷ rest) = (prev ≤ i) × (i ≤ bound) × Ascends bound i rest
Ascends bound prev (cursor ∷ rest) = Ascends bound prev rest

-- The invariant of `Cmd`: the offsets ascend, within the buffer, and the buffer ends where the last
-- argument does.
pub record IsValid (c : Cmd) : Type 0 where
  pub ascends : Ascends (length c.buffer) 0 c.args
  pub ends : last_end 0 c.args ≡ length c.buffer

pub new-IsValid : IsValid new
unfolding new
new-IsValid = record { ascends = tt; ends = refl }

Ascends-weaken :
    (b b' prev : ℕ) (args : List (Arg ℕ)) → b ≤ b' → Ascends b prev args → Ascends b' prev args
Ascends-weaken b b' prev [] h a = tt
Ascends-weaken b b' prev (simple i ∷ rest) h a =
    (omega arith, omega arith, Ascends-weaken b b' i rest h a.2)
Ascends-weaken b b' prev (cursor ∷ rest) h a = Ascends-weaken b b' prev rest h a

Ascends-append :
    (b prev i : ℕ) (args : List (Arg ℕ))
    → last_end prev args ≤ i
    → i ≤ b
    → Ascends b prev args
    → Ascends b prev (args ++ simple i ∷ [])
Ascends-append b prev i [] h k a = (h, k, tt)
Ascends-append b prev i (simple j ∷ rest) h k a = (a.0, a.1, Ascends-append b j i rest h k a.2)
Ascends-append b prev i (cursor ∷ rest) h k a = Ascends-append b prev i rest h k a

Ascends-append_cursor :
    (b prev : ℕ) (args : List (Arg ℕ)) → Ascends b prev args → Ascends b prev (args ++ cursor ∷ [])
Ascends-append_cursor b prev [] a = tt
Ascends-append_cursor b prev (simple j ∷ rest) a = (a.0, a.1, Ascends-append_cursor b j rest a.2)
Ascends-append_cursor b prev (cursor ∷ rest) a = Ascends-append_cursor b prev rest a

last_end-append :
    (prev : ℕ) (args rest : List (Arg ℕ))
    → last_end prev (args ++ rest) ≡ last_end (last_end prev args) rest
last_end-append prev [] rest = refl
last_end-append prev (simple i ∷ args) rest = last_end-append i args rest
last_end-append prev (cursor ∷ args) rest = last_end-append prev args rest

-- Writing an argument keeps the invariant: the offsets ascend, and the buffer ends where the argument
-- that was written does.
pub write_arg-IsValid : (c : Cmd) (x : Bytes) → IsValid c → IsValid (write_arg c x)
unfolding write_arg
write_arg-IsValid c x v =
    let n = length (c.buffer ++ x) in
    let grows : length c.buffer ≤ n = omega (arith, length-append c.buffer x) in
    record {
      ascends =
          Ascends-append n 0 n c.args (omega (arith, v.ends)) (omega arith)
            (Ascends-weaken (length c.buffer) n 0 c.args grows v.ascends);
      ends = last_end-append 0 c.args (simple n ∷ []);
    }

-- A cursor, which takes no bytes of the buffer, keeps the invariant.
pub cursor_arg-IsValid : (c : Cmd) (n : ℕ) → IsValid c → IsValid (cursor_arg c n)
unfolding cursor_arg
cursor_arg-IsValid c n v = record {
  ascends = Ascends-append_cursor (length c.buffer) 0 c.args v.ascends;
  ends = last_end-append 0 c.args (cursor ∷ []) ∙ v.ends;
}

take-append : (n : ℕ) (xs ys : Bytes) → n ≤ length xs → take n (xs ++ ys) ≡ take n xs
take-append zero xs ys h = refl
take-append (suc n) [] ys h = absurd (omega arith)
take-append (suc n) (x ∷ xs) ys h = ap (◌∷◌ x) (take-append n xs ys (omega arith))

-- A slice within the buffer does not see what is appended.
slice-append :
    (from to : ℕ) (xs ys : Bytes)
    → from ≤ to
    → to ≤ length xs
    → slice from to (xs ++ ys) ≡ slice from to xs
unfolding slice
slice-append zero to xs ys h k = let e : to - 0 ≡ to = omega arith in rw e (take-append to xs ys k)
slice-append (suc from) to [] ys h k = absurd (omega arith)
slice-append (suc from) zero (x ∷ xs) ys h k = absurd (omega arith)
slice-append (suc from) (suc to) (x ∷ xs) ys h k =
    let e : suc to - suc from ≡ to - from = omega arith in
    rw e (slice-append from to xs ys (omega arith) (omega arith))

args_from-buffer :
    (buffer x : Bytes) (prev : ℕ) (args : List (Arg ℕ))
    → Ascends (length buffer) prev args
    → args_from (buffer ++ x) prev args ≡ args_from buffer prev args
unfolding args_from
args_from-buffer buffer x prev [] a = refl
args_from-buffer buffer x prev (simple i ∷ rest) a =
    cc (slice-append prev i buffer x a.0 a.1, args_from-buffer buffer x i rest a.2)
args_from-buffer buffer x prev (cursor ∷ rest) a =
    ap (◌∷◌ cursor) (args_from-buffer buffer x prev rest a)

args_from-append :
    (buffer : Bytes) (prev : ℕ) (args rest : List (Arg ℕ))
    → args_from buffer prev (args ++ rest)
      ≡ args_from buffer prev args ++ args_from buffer (last_end prev args) rest
unfolding args_from
args_from-append buffer prev [] rest = refl
args_from-append buffer prev (simple i ∷ args) rest =
    ap (◌∷◌ (simple (slice prev i buffer))) (args_from-append buffer i args rest)
args_from-append buffer prev (cursor ∷ args) rest =
    ap (◌∷◌ cursor) (args_from-append buffer prev args rest)

take-all : (xs : Bytes) → take (length xs) xs ≡ xs
take-all [] = refl
take-all (x ∷ xs) = ap (◌∷◌ x) (take-all xs)

slice-tail : (xs ys : Bytes) → slice (length xs) (length (xs ++ ys)) (xs ++ ys) ≡ ys
unfolding slice
slice-tail [] ys = let e : length ys - 0 ≡ length ys = omega arith in rw e (take-all ys)
slice-tail (x ∷ xs) ys =
    let e : suc (length (xs ++ ys)) - suc (length xs) ≡ length (xs ++ ys) - length xs =
      omega arith in
    rw e (slice-tail xs ys)

-- An argument that is written is read back at the end, and those before it stay as they were.
pub args_iter-write_arg :
    (c : Cmd) (x : Bytes) → IsValid c → args_iter (write_arg c x) ≡ args_iter c ++ simple x ∷ []
unfolding args_iter write_arg args_from
args_iter-write_arg c x v =
    let n = length (c.buffer ++ x) in
    let tail = λ (e : ℕ). simple (slice e n (c.buffer ++ x)) ∷ [] in
    args_from-append (c.buffer ++ x) 0 c.args (simple n ∷ [])
    ∙ (ap (λ l. l ++ tail (last_end 0 c.args)) (args_from-buffer c.buffer x 0 c.args v.ascends)
        ∙ (ap (λ e. args_iter c ++ tail e) v.ends
            ∙ ap (λ s. args_iter c ++ simple s ∷ []) (slice-tail c.buffer x)))

pub args_iter-cursor_arg :
    (c : Cmd) (n : ℕ) → args_iter (cursor_arg c n) ≡ args_iter c ++ cursor ∷ []
unfolding args_iter cursor_arg args_from
args_iter-cursor_arg c n = args_from-append c.buffer 0 c.args (cursor ∷ [])

-- The command with the given arguments, written one after the other.
unfoldable pub write_args : Cmd → List Bytes → Cmd
write_args c [] = c
write_args c (x ∷ xs) = write_args (write_arg c x) xs

pub write_args-IsValid : (c : Cmd) (xs : List Bytes) → IsValid c → IsValid (write_args c xs)
unfolding write_args
write_args-IsValid c [] v = v
write_args-IsValid c (x ∷ xs) v = write_args-IsValid (write_arg c x) xs (write_arg-IsValid c x v)

-- A command that is built by writing its arguments has those arguments, in that order.
pub args_iter-write_args :
    (c : Cmd) (xs : List Bytes)
    → IsValid c
    → args_iter (write_args c xs) ≡ args_iter c ++ map simple xs
unfolding write_args
args_iter-write_args c [] v = sym (append-nil (args_iter c))
args_iter-write_args c (x ∷ xs) v =
    args_iter-write_args (write_arg c x) xs (write_arg-IsValid c x v)
    ∙ (ap (λ l. l ++ map simple xs) (args_iter-write_arg c x v)
        ∙ append_assoc (args_iter c) (simple x ∷ []) (map simple xs))

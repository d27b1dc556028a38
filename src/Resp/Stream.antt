-- ===== src/Resp/Stream.antt =====
-- What redis/src/parser.rs takes from the `combine` crate, as an interface: the parsers of single
-- tokens and the repetition, with what their documentation says of them. `combine` itself is not part
-- of the repository.
use redis_rs.Base.{ℕ, zero, suc, ◌≡◌, ◌≢◌, [], ◌∷◌, ◌++◌, Bytes, length, String}
use redis_rs.Value.Defs.{Value, Values, end, item}

-- A parser's result: a value and the input that is left, an error, that the input ended where more was
-- wanted, or a panic of the code that a parser runs.
pub data Parsed {ℓ} (A : Type ℓ) : Type ℓ where
  done : A → Bytes → Parsed A
  failed : String → Parsed A
  incomplete panicked : Parsed A

-- `p.then(f)`, `p.map(f)`, `p.skip(q)` and the like: one parser after the other.
infixl 5 ◌>>=◌
abbrev pub ◌>>=◌ {ℓ κ} : {A : Type ℓ} {B : Type κ} → Parsed A → (A → Bytes → Parsed B) → Parsed B
done a rest >>= f = f a rest
failed e >>= f = failed e
incomplete >>= f = incomplete
panicked >>= f = panicked

-- No CR stands in the text.
abbrev pub IsLine : Bytes → Type 0
IsLine [] = Unit
IsLine (c ∷ cs) = (c ≢ 0x0d) × IsLine cs

pub record Combine : Type 0 where
  -- `any()`: one byte.
  pub any : Bytes → Parsed ℕ
  -- `take_until_bytes(b"\r\n")` and then `take(2)`: what stands before the first CR LF.
  pub line : Bytes → Parsed Bytes
  -- `take(n)`.
  pub take : ℕ → Bytes → Parsed Bytes
  -- `crlf()`.
  pub crlf : Bytes → Parsed (Unit {0})
  -- `count_min_max(n, n, p)` into a vector.
  pub count : ℕ → (Bytes → Parsed Value) → Bytes → Parsed Values
  pub any_cons : (c : ℕ) (rest : Bytes) → any (c ∷ rest) ≡ done c rest
  pub any_nil : any [] ≡ incomplete
  pub line_found :
      (text rest : Bytes) → IsLine text → line (text ++ 0x0d ∷ 0x0a ∷ rest) ≡ done text rest
  pub take_found : (text rest : Bytes) → take (length text) (text ++ rest) ≡ done text rest
  pub crlf_found : (rest : Bytes) → crlf (0x0d ∷ 0x0a ∷ rest) ≡ done tt rest
  pub count_zero : (p : Bytes → Parsed Value) (s : Bytes) → count zero p s ≡ done end s
  pub count_suc :
      (n : ℕ) (p : Bytes → Parsed Value) (s : Bytes)
      → count (suc n) p s
        ≡ (p s >>= λ v rest. count n p rest >>= λ vs rest'. done (item v vs) rest')

-- ===== src/Errors/Retry.antt =====
-- How errors are retried and redirected.
use redis_rs.Base.{
  ℕ, ◌≤◌, List, [], ◌∷◌, ◌++◌, some, Bytes, to_decimal, to_decimal-IsDigits, IsDigits, one, more,
  ◌⊎◌, inl, inr, parse_unsigned-to_decimal, is_digit, subst, sym, ◌∙◌, ap, ◌≡◌, refl, ◌≢◌, ◌↔◌,
  true, false, arith,
}
use redis_rs.Errors.Server.{
  no_retry, ServerError, known, extension, ServerErrorKind, moved, ask, kind_code, err_parser,
  error_line, err_parser-error_line, requires_action,
}
use redis_rs.Errors.Redis.{
  server, retry_method, is_whitespace, split_words, split_ascii_whitespace, redirect_node,
  redirect_words, u16_max, push_word,
}

-- A reply that holds a server error is acted on inside the library exactly when that error, handed to
-- the caller as a `RedisError`, would ask for a retry.
pub requires_action_iff :
    (e : ServerError) → (requires_action e ≡ true) ↔ (retry_method (server e) ≢ no_retry)
unfolding requires_action retry_method
requires_action_iff (extension c d) = ground arith
requires_action_iff (known k d) = ground arith

-- A word: at least one byte, none of them ASCII whitespace.
pub data IsWord : Bytes → Type 0 where
  last : (c : ℕ) → is_whitespace c ≡ false → IsWord (c ∷ [])
  next : (c : ℕ) (cs : Bytes) → is_whitespace c ≡ false → IsWord cs → IsWord (c ∷ cs)

not_whitespace_of_digit : (c : ℕ) → is_digit c ≡ true → is_whitespace c ≡ false
unfolding is_digit is_whitespace
not_whitespace_of_digit c h = ground arith

pub IsDigits-IsWord : (cs : Bytes) → IsDigits cs → IsWord cs
IsDigits-IsWord cs (one c h) = last c (not_whitespace_of_digit c h)
IsDigits-IsWord cs (more c r h k) = next c r (not_whitespace_of_digit c h) (IsDigits-IsWord r k)

split_words-word : (w : Bytes) → IsWord w → split_words w ≡ (w, [])
unfolding split_words
split_words-word w (last c h) = rw h
split_words-word w (next c cs h k) = rw (split_words-word cs k, h)

split_words-two :
    (w v : Bytes) → IsWord w → IsWord v → split_words (w ++ b' ' ∷ v) ≡ (w, push_word v [])
unfolding split_words
split_words-two w v (last c h) k = rw (split_words-word v k, h)
split_words-two w v (next c cs h r) k = rw (split_words-two cs v r k, h)

push_word-word : (w : Bytes) (ws : List Bytes) → IsWord w → push_word w ws ≡ w ∷ ws
unfolding push_word
push_word-word w ws (last c h) = refl
push_word-word w ws (next c cs h r) = refl

split_ascii_whitespace-two :
    (w v : Bytes) → IsWord w → IsWord v → split_ascii_whitespace (w ++ b' ' ∷ v) ≡ w ∷ v ∷ []
unfolding split_ascii_whitespace
split_ascii_whitespace-two w v h k =
    ap (λ p. push_word p.0 p.1) (split_words-two w v h k)
    ∙ (rw (push_word-word v [] k) (push_word-word w (v ∷ []) h))

abbrev Reads : Bytes → ServerErrorKind → Type 0
Reads text k =
    redirect_node (server (known k (some text))) ≡ redirect_words (split_ascii_whitespace text)

redirect_words-two :
    (slot : ℕ) (addr : Bytes)
    → slot ≤ u16_max
    → redirect_words (to_decimal slot ∷ addr ∷ []) ≡ some (addr, slot)
unfolding redirect_words
redirect_words-two slot addr h = rw (parse_unsigned-to_decimal u16_max slot h, redirect_words)

redirect_node-known :
    (k : ServerErrorKind) (text : Bytes)
    → (k ≡ moved) ⊎ (k ≡ ask)
    → redirect_node (server (known k (some text))) ≡ redirect_words (split_ascii_whitespace text)
redirect_node-known k text (inl e) = subst (Reads text) (sym e) (unfold redirect_node in refl)
redirect_node-known k text (inr e) = subst (Reads text) (sym e) (unfold redirect_node in refl)

-- A redirection error that a server sends, `MOVED slot address` or `ASK slot address`, is read and
-- yields that address and slot, for every slot number of 16 bits and every address without whitespace.
pub redirect_node-err_parser :
    (k : ServerErrorKind) (slot : ℕ) (addr : Bytes)
    → (k ≡ moved) ⊎ (k ≡ ask)
    → slot ≤ u16_max
    → IsWord addr
    → redirect_node (server (err_parser (kind_code k ++ b' ' ∷ (to_decimal slot ++ b' ' ∷ addr))))
      ≡ some (addr, slot)
unfolding error_line
redirect_node-err_parser k slot addr which bound word =
    let text = to_decimal slot ++ b' ' ∷ addr in
    let words : split_ascii_whitespace text ≡ to_decimal slot ∷ addr ∷ [] =
      split_ascii_whitespace-two (to_decimal slot) addr
        (IsDigits-IsWord _ (to_decimal-IsDigits slot)) word in
    ap (λ e. redirect_node (server e)) (err_parser-error_line k (some text))
    ∙ (redirect_node-known k text which
        ∙ (ap redirect_words words ∙ redirect_words-two slot addr bound))

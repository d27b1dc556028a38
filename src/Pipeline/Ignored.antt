-- ===== src/Pipeline/Ignored.antt =====
-- Whose results a pipeline returns.
use redis_rs.Base.{
  ℕ, suc, ◌<◌, ◌≤◌, ◌≡◌, refl, sym, ap, ◌∙◌, Bool, true, false, ◌||◌, none, List, [], ◌∷◌, ◌++◌,
  length, length-append, if◌then◌else◌, ◌==◌, ==_refl, arith, ap₂, ◌&&◌,
}
use redis_rs.Value.Defs.{Value, array, server_error, of_list, Outcome}
use redis_rs.Value.Methods.{errors_in, errors_in_vec, first_error, extract_error-first_error}
use redis_rs.Multiplexed.{server_error_of}
use redis_rs.Cmd.{Cmd}
use redis_rs.Pipeline.{
  Pipeline, empty, add_command, ignore, ignore_command, contains, filter_from, filter_unless_empty,
  filter_ignored_results, server_errors, compose_by_errors, compose_response,
}

-- A command is added, and ignored if the flag says so.
abbrev pub add_one : Cmd × Bool → Pipeline → Pipeline
add_one (c, ignored) p = if ignored then ignore (add_command c p) else add_command c p

-- A pipeline that is built command by command.
abbrev pub built : List (Cmd × Bool) → Pipeline → Pipeline
built [] p = p
built (x ∷ xs) p = built xs (add_one x p)

-- The values of the commands that are not ignored.
abbrev pub kept : List (Cmd × Bool) → List Value → List Value
kept [] vs = []
kept (x ∷ xs) [] = []
kept ((c, ignored) ∷ xs) (v ∷ vs) = if ignored then kept xs vs else v ∷ kept xs vs

-- The indices from `i` on of the commands that are ignored, the last first, in front of others.
abbrev indices : ℕ → List (Cmd × Bool) → List ℕ → List ℕ
indices i [] others = others
indices i ((c, ignored) ∷ xs) others = indices (suc i) xs (if ignored then i ∷ others else others)

length-snoc : (cs : List Cmd) (c : Cmd) → length (cs ++ c ∷ []) ≡ suc (length cs)
length-snoc cs c = omega (arith, length-append cs (c ∷ []))

-- An added command that is ignored adds the index at which it stands.
ignore-add_command :
    (c : Cmd) (p : Pipeline)
    → ignore (add_command c p)
      ≡ record (add_command c p) { ignored_commands = length p.commands ∷ p.ignored_commands }
unfolding add_command ignore ignore_command
ignore-add_command c p = rw (length-snoc p.commands c) refl

length-add_one :
    (x : Cmd × Bool) (p : Pipeline) → length (add_one x p).commands ≡ suc (length p.commands)
unfolding add_command
length-add_one (c, true) p = rw (ignore-add_command c p) (length-snoc p.commands c)
length-add_one (c, false) p = length-snoc p.commands c

add_one-ignored :
    (x : Cmd × Bool) (p : Pipeline)
    → (add_one x p).ignored_commands
      ≡ (if x.1 then length p.commands ∷ p.ignored_commands else p.ignored_commands)
unfolding add_command
add_one-ignored (c, true) p = rw (ignore-add_command c p) refl
add_one-ignored (c, false) p = refl

built-ignored :
    (xs : List (Cmd × Bool)) (p : Pipeline)
    → (built xs p).ignored_commands ≡ indices (length p.commands) xs p.ignored_commands
built-ignored [] p = refl
built-ignored (x ∷ xs) p =
    built-ignored xs (add_one x p)
    ∙ ap₂ (λ n is. indices n xs is) (length-add_one x p) (add_one-ignored x p)

-- Whether the command at index `j` is ignored, if the first one stands at `i`.
abbrev flagged : ℕ → List (Cmd × Bool) → ℕ → Bool
flagged i [] j = false
flagged i ((c, b) ∷ xs) j = b && j == i || flagged (suc i) xs j

contains-indices :
    (xs : List (Cmd × Bool)) (i j : ℕ) (others : List ℕ)
    → contains j (indices i xs others) ≡ (contains j others || flagged i xs j)
contains-indices [] i j others = ground arith
contains-indices ((c, true) ∷ xs) i j others =
    contains-indices xs (suc i) j (i ∷ others) ∙ ground arith
contains-indices ((c, false) ∷ xs) i j others = contains-indices xs (suc i) j others

flagged-below : (xs : List (Cmd × Bool)) (i j : ℕ) → j < i → flagged i xs j ≡ false
flagged-below [] i j h = refl
flagged-below ((c, b) ∷ xs) i j h = ground (arith, flagged-below xs (suc i) j (omega arith))

flagged-later :
    (c : Cmd) (b : Bool) (xs : List (Cmd × Bool)) (i j : ℕ)
    → suc i ≤ j
    → flagged i ((c, b) ∷ xs) j ≡ flagged (suc i) xs j
flagged-later c b xs i j h = ground arith

flagged-here : (c : Cmd) (b : Bool) (xs : List (Cmd × Bool)) (i : ℕ) → flagged i ((c, b) ∷ xs) i ≡ b
flagged-here c b xs i = ground (arith, flagged-below xs (suc i) i (omega arith), ==_refl i)

filter_from-empty : (i : ℕ) (vs : List Value) → filter_from [] i vs ≡ vs
unfolding filter_from
filter_from-empty i [] = refl
filter_from-empty i (v ∷ vs) = ap (◌∷◌ v) (filter_from-empty (suc i) vs)

filter_unless_empty-filter_from :
    (ignored : List ℕ) (vs : List Value) → filter_unless_empty ignored vs ≡ filter_from ignored 0 vs
unfolding filter_unless_empty
filter_unless_empty-filter_from [] vs = sym (filter_from-empty 0 vs)
filter_unless_empty-filter_from (j ∷ js) vs = refl

filter_from-kept :
    (ignored : List ℕ) (xs : List (Cmd × Bool)) (i : ℕ) (vs : List Value)
    → ((j : ℕ) → i ≤ j → contains j ignored ≡ flagged i xs j)
    → length vs ≡ length xs
    → filter_from ignored i vs ≡ kept xs vs
unfolding filter_from
filter_from-kept ignored [] i [] h e = refl
filter_from-kept ignored [] i (v ∷ vs) h e = absurd (omega (arith, e))
filter_from-kept ignored (x ∷ xs) i [] h e = absurd (omega (arith, e))
filter_from-kept ignored ((c, b) ∷ xs) i (v ∷ vs) h e =
    let later =
      filter_from-kept ignored xs (suc i) vs (λ j l. h j (omega arith) ∙ flagged-later c b xs i j l)
        (omega (arith, e)) in
    let here : contains i ignored ≡ b = h i (omega arith) ∙ flagged-here c b xs i in
    rw (here, later) refl

-- Of as many results as commands, those of the commands that are not ignored are kept, in order.
filter_ignored_results-built :
    (xs : List (Cmd × Bool)) (vs : List Value)
    → length vs ≡ length xs
    → filter_ignored_results (built xs empty) vs ≡ kept xs vs
unfolding filter_ignored_results empty
filter_ignored_results-built xs vs e =
    ap (λ is. filter_unless_empty is vs) (built-ignored xs empty)
    ∙ (filter_unless_empty-filter_from (indices 0 xs []) vs
        ∙ filter_from-kept (indices 0 xs []) xs 0 vs (λ j l. contains-indices xs 0 j []) e)

-- No server error stands in any of the values, at any depth.
abbrev pub AllClean : List Value → Type 0
AllClean [] = Unit
AllClean (v ∷ vs) = (errors_in v ≡ []) × AllClean vs

server_error_of-clean : (v : Value) → errors_in v ≡ [] → server_error_of v ≡ none
unfolding server_error_of errors_in
server_error_of-clean (server_error e) h = cc
server_error_of-clean _ h = refl

server_errors-clean : (i : ℕ) (vs : List Value) → AllClean vs → server_errors i vs ≡ []
unfolding server_errors
server_errors-clean i [] h = refl
server_errors-clean i (v ∷ vs) h =
    rw (server_error_of-clean v h.0) (server_errors-clean (suc i) vs h.1)

kept-clean :
    (xs : List (Cmd × Bool)) (vs : List Value)
    → AllClean vs
    → errors_in_vec (of_list (kept xs vs)) ≡ []
unfolding errors_in of_list
kept-clean [] vs h = refl
kept-clean (x ∷ xs) [] h = refl
kept-clean ((c, true) ∷ xs) (v ∷ vs) h = kept-clean xs vs h.1
kept-clean ((c, false) ∷ xs) (v ∷ vs) h = rw h.0 (kept-clean xs vs h.1)

built-ignore_errors :
    (xs : List (Cmd × Bool)) (p : Pipeline) → (built xs p).ignore_errors ≡ p.ignore_errors
built-ignore_errors [] p = refl
built-ignore_errors ((c, true) ∷ xs) p =
    built-ignore_errors xs (add_one (c, true) p)
    ∙ (ap (λ q. q.ignore_errors) (ignore-add_command c p) ∙ unfold add_command in refl)
built-ignore_errors ((c, false) ∷ xs) p =
    built-ignore_errors xs (add_one (c, false) p) ∙ unfold add_command in refl

-- A pipeline that was built command by command, some of them ignored, for as many results as it has
-- commands, in none of which a server error stands at any depth: what is converted to the caller's type,
-- and returned, is the array of exactly the results of the commands that are not ignored, in order.
pub compose_response-built :
    {T : Type 0} (from_redis_value : Value → Outcome T) (xs : List (Cmd × Bool)) (vs : List Value)
    → length vs ≡ length xs
    → AllClean vs
    → compose_response from_redis_value (built xs empty) vs
      ≡ from_redis_value (array (of_list (kept xs vs)))
unfolding compose_response compose_by_errors empty first_error errors_in of_list
compose_response-built from_redis_value xs vs e clean =
    rw
      (
        built-ignore_errors xs empty,
        server_errors-clean 0 vs clean,
        filter_ignored_results-built xs vs e,
      )
      (rw (extract_error-first_error (array (of_list (kept xs vs))))
        (rw (kept-clean xs vs clean) refl))

-- ===== src/Multiplexed/Replies.antt =====
-- Which replies the answer to a request is made of.
use redis_rs.Base.{
  ℕ, suc, ◌+◌, ◌≡◌, refl, sym, ap, ap₂, ◌∙◌, inl, inr, Bool, true, false, Option, none, some, List,
  [], ◌∷◌, ◌++◌, map, append_assoc, append-nil, length, length-append, ltb-ge, Option-cases, lt→ltb,
  arith,
}
use redis_rs.Errors.Server.{ServerError}
use redis_rs.Value.Defs.{Value, array, of_list, Outcome, ok, ◌>>=◌}
use redis_rs.Multiplexed.{
  Reply, reply, ErrorOrErrors, errors, PipelineResponseExpectation, ResponseAggregate,
  single_command, gathering, InFlight, PipelineSink, push_of, server_error_of, response, send,
  kept_values, kept_errors, note_error, skipped_errors, push_front, gather, receive, answer,
  answer_front, dispatch, send_result, stream_item, is_unrecoverable, poll_read,
}

-- A request and the values that the server answers it with: of a command, of a pipeline, whose
-- first command is answered by the first value, or of a transaction, with the answers to MULTI, to
-- its commands and to EXEC.
pub data Exchange : Type 0 where
  command : Option ℕ → Value → Exchange
  batch : Option ℕ → Value → List Value → Exchange
  transaction : Option ℕ → Value → List Value → Value → Exchange

abbrev expecting : ℕ → ℕ → Bool → PipelineResponseExpectation
expecting skipped expected atomic = record {
  skipped_response_count = skipped;
  expected_response_count = expected;
  is_transaction = atomic;
  seen_responses = 0;
}

-- What is in flight for a request, as the connection sends it.
abbrev pub entry_of : Exchange → InFlight
entry_of (command caller v) = record { output = caller; response_aggregate = single_command }
entry_of (batch caller v vs) = record {
  output = caller;
  response_aggregate = gathering [] (errors []) (expecting 0 (suc (length vs)) false);
}
entry_of (transaction caller multi queued exec) = record {
  output = caller;
  response_aggregate = gathering [] (errors []) (expecting (suc (length queued)) 1 true);
}

abbrev pub values_of : Exchange → List Value
values_of (command caller v) = v ∷ []
values_of (batch caller v vs) = v ∷ vs
values_of (transaction caller multi queued exec) = multi ∷ queued ++ exec ∷ []

abbrev pub cons_error : ℕ → Option ServerError → List (ℕ × ServerError) → List (ℕ × ServerError)
cons_error i none es = es
cons_error i (some e) es = (i, e) ∷ es

-- The server errors among the values, with their positions from `i` on.
abbrev pub errors_from : ℕ → List Value → List (ℕ × ServerError)
errors_from i [] = []
errors_from i (v ∷ vs) = cons_error i (server_error_of v) (errors_from (suc i) vs)

-- The answer: the value, the array of the values, or the value of EXEC in an array unless the server
-- has refused some commands of the transaction.
abbrev pub answer_of : Exchange → Option ℕ × Reply
answer_of (command caller v) = (caller, reply v)
answer_of (batch caller v vs) = (caller, reply (array (of_list (v ∷ vs))))
answer_of (transaction caller multi queued exec) =
    (caller, response (errors (errors_from 0 queued)) (exec ∷ []))

abbrev pub Plain : Value → Type 0
Plain v = push_of (reply v) ≡ none

abbrev pub AllPlain : List Value → Type 0
AllPlain [] = Unit
AllPlain (v ∷ vs) = Plain v × AllPlain vs

-- No value is a push message, and MULTI is not refused.
abbrev pub Answerable : Exchange → Type 0
Answerable (command caller v) = Plain v
Answerable (batch caller v vs) = Plain v × AllPlain vs
Answerable (transaction caller multi queued exec) =
    (server_error_of multi ≡ none) × Plain multi × AllPlain queued × Plain exec

abbrev pub AllAnswerable : List Exchange → Type 0
AllAnswerable [] = Unit
AllAnswerable (x ∷ xs) = Answerable x × AllAnswerable xs

abbrev pub incoming : List Value → List (Option Reply) → List (Option Reply)
incoming [] items = items
incoming (v ∷ vs) items = some (reply v) ∷ incoming vs items

abbrev pub all_values : List Exchange → List (Option Reply)
all_values [] = []
all_values (x ∷ xs) = incoming (values_of x) (all_values xs)

abbrev with_entry : Option ℕ → ResponseAggregate → List InFlight → PipelineSink → PipelineSink
with_entry output aggregate rest s = record s {
  in_flight = record { output = output; response_aggregate = aggregate } ∷ rest;
}

abbrev without : List InFlight → PipelineSink → PipelineSink
without rest s = record s { in_flight = rest }

abbrev then_read : List (Option Reply) → Outcome PipelineSink → Outcome (PipelineSink × Bool)
then_read items r = r >>= λ s. poll_read s items

poll_read-Plain :
    (v : Value) (items : List _) (output : Option ℕ) (aggregate : ResponseAggregate)
    (rest : List InFlight) (s : PipelineSink)
    → Plain v
    → poll_read (with_entry output aggregate rest s) (some (reply v) ∷ items)
      ≡ then_read items (answer output aggregate (reply v) (without rest s))
unfolding poll_read send_result dispatch answer_front stream_item is_unrecoverable
poll_read-Plain v items output aggregate rest s plain = rw plain refl

note_error-late :
    (seen : ℕ) (found : List (ℕ × ServerError)) (e : ServerError)
    → note_error (suc (suc seen)) found (some e) ≡ ok (errors (found ++ (seen, e) ∷ []))
unfolding note_error
note_error-late seen found e =
    rw (ltb-ge (suc (suc seen)) 2 (omega arith))
      (ap (λ i. ok (errors (found ++ (i, e) ∷ []))) (omega arith))

abbrev transacting : List (ℕ × ServerError) → ℕ → ℕ → ℕ → ResponseAggregate
transacting found skipped expected seen = gathering [] (errors found) (record {
  skipped_response_count = skipped;
  expected_response_count = expected;
  is_transaction = true;
  seen_responses = seen;
})

module _ (items : List (Option Reply)) (output : Option ℕ) (rest : List InFlight)
    (s : PipelineSink) where
  -- The values that are kept, the last of which completes the answer.
  poll_read-kept :
      (v : Value) (vs buffer : List Value) (found : ErrorOrErrors) (atomic : Bool)
      (seen expected : ℕ)
      → expected ≡ suc (length buffer + length vs)
      → Plain v
      → AllPlain vs
      → poll_read
          (with_entry output
            (gathering buffer found (record {
              skipped_response_count = 0;
              expected_response_count = expected;
              is_transaction = atomic;
              seen_responses = seen;
            }))
            rest
            s)
          (incoming (v ∷ vs) items)
        ≡ poll_read (send output (response found (buffer ++ v ∷ vs)) (without rest s)) items
  unfolding answer receive gather kept_values kept_errors push_front
  poll_read-kept v [] buffer found atomic seen expected eq plain all_plain =
      poll_read-Plain v items output _ rest s plain
      ∙ rw
          (ltb-ge (length (buffer ++ v ∷ [])) expected
            (omega (arith, length-append buffer (v ∷ []), eq)))
          refl
  poll_read-kept v (w ∷ vs) buffer found atomic seen expected eq plain all_plain =
      poll_read-Plain v (incoming (w ∷ vs) items) output _ rest s plain
      ∙ rw
          (lt→ltb (length (buffer ++ v ∷ [])) expected
            (omega (arith, length-append buffer (v ∷ []), eq)))
          (poll_read-kept w vs (buffer ++ v ∷ []) found atomic (suc seen) expected
              (omega (arith, length-append buffer (v ∷ []), eq)) all_plain.0 all_plain.1
            ∙ ap (λ b. poll_read (send output (response found b) (without rest s)) items)
                (append_assoc buffer (v ∷ []) (w ∷ vs)))

  abbrev read_after : ℕ → List (ℕ × ServerError) → ℕ → Outcome (PipelineSink × Bool)
  read_after expected found seen =
      poll_read (with_entry output (transacting found 0 expected seen) rest s) items

  -- The values that a transaction skips: `seen` of them have been seen before.
  poll_read-skipped :
      (vs : List Value) (found : List (ℕ × ServerError)) (seen expected : ℕ)
      → AllPlain vs
      → poll_read
          (with_entry output (transacting found (length vs) expected (suc seen)) rest s)
          (incoming vs items)
        ≡ read_after expected (found ++ errors_from seen vs) (length vs + suc seen)
  unfolding answer receive skipped_errors push_front
  poll_read-skipped [] found seen expected all_plain =
      ap₂ (read_after expected) (sym (append-nil found)) (omega arith)
  poll_read-skipped (v ∷ vs) found seen expected all_plain =
      poll_read-Plain v (incoming vs items) output _ rest s all_plain.0
      ∙ elim (Option-cases (server_error_of v)) [
        | inl eq ↦ rw eq (
            poll_read-skipped vs found (suc seen) expected all_plain.1
            ∙ ap (read_after expected (found ++ errors_from (suc seen) vs)) (omega arith))
        | inr (e, eq) ↦
            rw (eq, note_error-late seen found e)
              (poll_read-skipped vs (found ++ (seen, e) ∷ []) (suc seen) expected all_plain.1
                ∙ ap₂ (read_after expected)
                    (append_assoc found ((seen, e) ∷ []) (errors_from (suc seen) vs)) (omega arith))
      ]

abbrev answered : Exchange → PipelineSink → PipelineSink
answered x s = send (answer_of x).0 (answer_of x).1 s

abbrev pub answered_all : List Exchange → PipelineSink → PipelineSink
answered_all [] s = s
answered_all (x ∷ xs) s = answered_all xs (answered x s)

incoming-append :
    (vs ws : List Value) (items : List _)
    → incoming (vs ++ ws) items ≡ incoming vs (incoming ws items)
incoming-append [] ws items = refl
incoming-append (v ∷ vs) ws items = ap (◌∷◌ (some (reply v))) (incoming-append vs ws items)

-- After MULTI has been answered.
poll_read-transaction :
    (caller : Option ℕ) (queued : List Value) (exec : Value) (items : List (Option Reply))
    (rest : List InFlight) (s : PipelineSink)
    → AllPlain queued
    → Plain exec
    → poll_read
        (with_entry caller (transacting [] (length queued) 1 1) rest s)
        (incoming (queued ++ exec ∷ []) items)
      ≡ poll_read
          (send caller (response (errors (errors_from 0 queued)) (exec ∷ [])) (without rest s))
          items
poll_read-transaction caller queued exec items rest s all_plain plain =
    ap (poll_read _) (incoming-append queued (exec ∷ []) items)
    ∙ poll_read-skipped (some (reply exec) ∷ items) caller rest s queued [] 0 1 all_plain
    ∙ poll_read-kept items caller rest s exec [] [] (errors (errors_from 0 queued)) true
        (length queued + 1) 1 refl plain tt

poll_read-exchange :
    (x : Exchange) (items : List (Option Reply)) (rest : List InFlight) (s : PipelineSink)
    → Answerable x
    → poll_read (record s { in_flight = entry_of x ∷ rest }) (incoming (values_of x) items)
      ≡ poll_read (answered x (without rest s)) items
unfolding answer receive skipped_errors note_error push_front
poll_read-exchange (command caller v) items rest s plain =
    poll_read-Plain v items caller single_command rest s plain
poll_read-exchange (batch caller v vs) items rest s plain =
    poll_read-kept items caller rest s v vs [] (errors []) false 0 (suc (length vs)) (omega arith)
      plain.0 plain.1
poll_read-exchange (transaction caller multi queued exec) items rest s plain =
    poll_read-Plain multi (incoming (queued ++ exec ∷ []) items) caller _ rest s plain.1
    ∙ rw plain.0 (poll_read-transaction caller queued exec items rest s plain.2 plain.3)

send-without :
    (caller : Option ℕ) (r : Reply) (rest : List InFlight) (s : PipelineSink)
    → send caller r (without rest s) ≡ without rest (send caller r s)
unfolding send
send-without none r rest s = refl
send-without (some c) r rest s = refl

poll_read-in_order :
    (xs : List Exchange) (rest : List InFlight) (s : PipelineSink)
    → AllAnswerable xs
    → poll_read (without (map entry_of xs ++ rest) s) (all_values xs)
      ≡ ok (without rest (answered_all xs s), true)
unfolding poll_read
poll_read-in_order [] rest s plain = refl
poll_read-in_order (x ∷ xs) rest s plain =
    poll_read-exchange x (all_values xs) (map entry_of xs ++ rest) s plain.0
    ∙ ap (λ s. poll_read s (all_values xs))
        (send-without (answer_of x).0 (answer_of x).1 (map entry_of xs ++ rest) s)
    ∙ poll_read-in_order xs rest (answered x s) plain.1

-- The replies to requests that are in flight in the order in which they were sent, none of which is a
-- push message or a refusal of MULTI, answer each caller with what its own replies make up, in that
-- order, and leave the requests in flight that were sent later.
pub poll_read-exchanges :
    (xs : List Exchange) (rest : List InFlight) (s : PipelineSink)
    → AllAnswerable xs
    → s.in_flight ≡ map entry_of xs ++ rest
    → poll_read s (all_values xs) ≡ ok (record (answered_all xs s) { in_flight = rest }, true)
poll_read-exchanges xs rest s plain eq =
    ap (λ queue. poll_read (without queue s) (all_values xs)) eq
    ∙ poll_read-in_order xs rest s plain

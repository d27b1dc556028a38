-- ===== src/Multiplexed/Queue.antt =====
-- Who is answered, and in which order.
use redis_rs.Base.{
  ℕ, zero, suc, ◌≡◌, refl, sym, ◌∙◌, ◌⊎◌, inl, inr, Bool, true, false, Option, none, some, List, [],
  ◌∷◌, ◌++◌, ◌-◌, ◌<◌, ltb→lt, subst, arith, map, append_assoc, Bool-cases, length, ltb,
}
use mathlib.Core.List.{map-append}
use redis_rs.Errors.Server.{ServerError}
use redis_rs.Value.Defs.{PushKind, Values, Outcome, ok, panicked}
use redis_rs.Multiplexed.{
  Reply, ErrorOrErrors, PipelineResponseExpectation, ResponseAggregate, single_command, gathering,
  InFlight, PipelineSink, send_push, send_disconnect, send, push_front, gather, receive,
  skipped_errors, note_error, server_error_of, errors, first_error, reply, failure, kept_values,
  kept_errors, answer, answer_front, push_of, has_reply, dispatch, send_result, stream_item,
  is_unrecoverable, poll_read,
}

abbrev cons_caller : Option ℕ → List ℕ → List ℕ
cons_caller none callers = callers
cons_caller (some c) callers = c ∷ callers

-- The callers that wait for an answer.
unfoldable pub waiting : List InFlight → List ℕ
waiting [] = []
waiting (entry ∷ rest) = cons_caller entry.output (waiting rest)

-- Those who have an answer, in the order in which they got it, and then those who wait.
unfoldable pub callers : PipelineSink → List ℕ
unfolding waiting
callers s = map (λ a. a.0) s.sent ++ waiting s.in_flight

abbrev IsServerError : Reply → Type 0
IsServerError (reply v) = (e : ServerError) × (server_error_of v ≡ some e)
IsServerError (failure e) = ⊥

-- A server error answers the first command of a transaction, which is MULTI.
abbrev Refused : ResponseAggregate → Reply → Type 0
Refused single_command r = ⊥
Refused (gathering buffer found e) r =
    (e.seen_responses ≡ 0) × (e.is_transaction ≡ true) × IsServerError r

abbrev RefusedFront : List InFlight → Reply → Type 0
RefusedFront [] r = ⊥
RefusedFront (entry ∷ rest) r = Refused entry.response_aggregate r

-- It panics for a reason, or goes on with the same callers.
abbrev Keeps : Type 0 → List ℕ → Outcome PipelineSink → Type 0
Keeps P cs r = ((r ≡ panicked) × P) ⊎ ((s : PipelineSink) × (r ≡ ok s) × (callers s ≡ cs))

callers-send :
    (output : Option ℕ) (r : Reply) (s : PipelineSink)
    → callers (send output r s) ≡ map (λ a. a.0) s.sent ++ cons_caller output (waiting s.in_flight)
unfolding callers send
callers-send none r s = refl
callers-send (some c) r s = simp (map-append, append_assoc)

callers-push_front :
    (output : Option ℕ) (aggregate : ResponseAggregate) (s : PipelineSink)
    → callers (push_front output aggregate s)
      ≡ map (λ a. a.0) s.sent ++ cons_caller output (waiting s.in_flight)
unfolding callers push_front
callers-push_front output aggregate s = refl

callers-gather :
    (output : Option ℕ) (buffer : List _) (found : ErrorOrErrors) (e : PipelineResponseExpectation)
    (s : PipelineSink)
    → callers (gather output buffer found e s)
      ≡ map (λ a. a.0) s.sent ++ cons_caller output (waiting s.in_flight)
unfolding gather
callers-gather output buffer found e s =
    elim (Bool-cases (ltb (length buffer) e.expected_response_count)) [
      | inl more ↦ rw more (callers-push_front output (gathering buffer found e) s)
      | inr done ↦ rw done (callers-send output _ s)
    ]

note_error-result :
    (seen : ℕ) (found : List _) (e : Option ServerError)
    → ((note_error seen found e ≡ panicked) × (seen < 2) × ((e' : ServerError) × (e ≡ some e')))
      ⊎ ((found' : ErrorOrErrors) × (note_error seen found e ≡ ok found'))
unfolding note_error
note_error-result seen found none = inr (_, refl)
note_error-result seen found (some e) = elim (Bool-cases (ltb seen 2)) [
  | inl early ↦ inl (rw early refl, ltb→lt _ _ early, (e, refl))
  | inr late ↦ inr (errors (found ++ (seen - 2, e) ∷ []), rw late refl)
]

skipped_errors-result :
    (b : Bool) (seen : ℕ) (found : ErrorOrErrors) (r : Reply)
    → ((skipped_errors b seen found r ≡ panicked) × (seen < 2) × (b ≡ true) × IsServerError r)
      ⊎ ((found' : ErrorOrErrors) × (skipped_errors b seen found r ≡ ok found'))
unfolding skipped_errors
skipped_errors-result false seen found r = inr (_, refl)
skipped_errors-result true seen (first_error e) r = inr (_, refl)
skipped_errors-result true seen (errors found) (reply v) =
    elim (note_error-result seen found (server_error_of v)) [
      | inl (panics, early, found_error) ↦ inl (panics, early, refl, found_error)
      | inr goes ↦ inr goes
    ]
skipped_errors-result true seen (errors found) (failure e) = inr (_, refl)

receive-Keeps :
    (skipped : ℕ) (output : Option ℕ) (buffer : List _) (found : ErrorOrErrors)
    (e : PipelineResponseExpectation) (r : Reply) (s : PipelineSink)
    → Keeps
        ((e.seen_responses ≡ 0) × (e.is_transaction ≡ true) × IsServerError r)
        (map (λ a. a.0) s.sent ++ cons_caller output (waiting s.in_flight))
        (receive skipped output buffer found e r s)
unfolding receive
receive-Keeps zero output buffer found e r s =
    inr (_, refl, callers-gather output (kept_values buffer r) (kept_errors found r) _ s)
receive-Keeps (suc skipped) output buffer found e r s =
    elim (skipped_errors-result e.is_transaction (suc e.seen_responses) found r) [
      | inl (eq, early, atomic, refusal) ↦ inl (rw eq refl, (omega arith, atomic, refusal))
      | inr (found', eq) ↦ inr (
        push_front output
            (gathering buffer found' (record e {
              skipped_response_count = skipped;
              seen_responses = suc e.seen_responses;
            }))
            s,
        rw eq refl,
        callers-push_front output _ s,
      )
    ]

answer-Keeps :
    (output : Option ℕ) (aggregate : ResponseAggregate) (r : Reply) (s : PipelineSink)
    → Keeps
        (Refused aggregate r)
        (map (λ a. a.0) s.sent ++ cons_caller output (waiting s.in_flight))
        (answer output aggregate r s)
unfolding answer
answer-Keeps output single_command r s = inr (_, refl, callers-send output r s)
answer-Keeps output (gathering buffer found e) r s =
    receive-Keeps e.skipped_response_count output buffer found e r s

answer_front-Keeps :
    (in_flight : List InFlight) (r : Reply) (s : PipelineSink)
    → in_flight ≡ s.in_flight
    → Keeps (RefusedFront in_flight r) (callers s) (answer_front in_flight r s)
unfolding answer_front callers waiting
answer_front-Keeps [] r s eq = inr (s, refl, refl)
answer_front-Keeps (entry ∷ rest) r s eq =
    rw (sym eq, waiting)
      (answer-Keeps entry.output entry.response_aggregate r (record s { in_flight = rest }))

callers-send_push :
    (kind : PushKind) (vs : Values) (s : PipelineSink) → callers (send_push kind vs s) ≡ callers s
unfolding send_push callers
callers-send_push kind vs s = elim (Bool-cases s.has_push_sender) [
  | inl some_sender ↦ rw some_sender refl
  | inr no_sender ↦ rw no_sender refl
]

callers-send_disconnect : (s : PipelineSink) → callers (send_disconnect s) ≡ callers s
unfolding send_disconnect callers
callers-send_disconnect s = callers-send_push _ _ s

in_flight-send_push :
    (kind : PushKind) (vs : Values) (s : PipelineSink)
    → (send_push kind vs s).in_flight ≡ s.in_flight
unfolding send_push
in_flight-send_push kind vs s = elim (Bool-cases s.has_push_sender) [
  | inl some_sender ↦ rw some_sender refl
  | inr no_sender ↦ rw no_sender refl
]

Keeps-≡ :
    {P Q : Type 0} {cs ds : List ℕ} {r : Outcome PipelineSink}
    → cs ≡ ds
    → (P → Q)
    → Keeps P cs r
    → Keeps Q ds r
Keeps-≡ eq f (inl (panics, why)) = inl (panics, f why)
Keeps-≡ eq f (inr (s, goes, same)) = inr (s, goes, same ∙ eq)

dispatch-Keeps :
    (message : Option (PushKind × Values)) (r : Reply) (s : PipelineSink)
    → Keeps (RefusedFront s.in_flight r) (callers s) (dispatch message r s)
unfolding dispatch
dispatch-Keeps none r s = answer_front-Keeps s.in_flight r s refl
dispatch-Keeps (some (kind, vs)) r s = elim (Bool-cases (has_reply kind)) [
  | inl answers ↦ rw answers (
      Keeps-≡ (callers-send_push kind vs s)
        (λ refused. subst (λ q. RefusedFront q r) (in_flight-send_push kind vs s) refused)
        (answer_front-Keeps (send_push kind vs s).in_flight r (send_push kind vs s) refl))
  | inr silent ↦ rw silent (inr (send_push kind vs s, refl, callers-send_push kind vs s))
]

send_result-Keeps :
    (s : PipelineSink) (r : Reply)
    → Keeps (RefusedFront s.in_flight r) (callers s) (send_result s r)
unfolding send_result
send_result-Keeps s r = dispatch-Keeps (push_of r) r s

-- At one of the items, a server error answers the first command of the transaction that is then in
-- front.
abbrev pub MultiRefused : PipelineSink → List (Option Reply) → Type 0
MultiRefused s [] = ⊥
MultiRefused s (item ∷ items) =
    RefusedFront s.in_flight (stream_item item)
    ⊎ ((s' : PipelineSink) × (send_result s (stream_item item) ≡ ok s') × MultiRefused s' items)

-- Reading replies ends in a state where the callers that have an answer, in the order in which they got
-- it, and then those who wait are as before: each caller is answered at most once, after all those who
-- asked before, and none is lost. It panics only if a server error answers the first command of a
-- transaction.
pub poll_read-callers :
    (s : PipelineSink) (items : List (Option Reply))
    → ((poll_read s items ≡ panicked) × MultiRefused s items)
      ⊎ ((s' : PipelineSink) × (b : Bool) × (poll_read s items ≡ ok (s', b))
          × (callers s' ≡ callers s))
unfolding poll_read
poll_read-callers s [] = inr (s, true, refl, refl)
poll_read-callers s (item ∷ items) = elim (send_result-Keeps s (stream_item item)) [
  | inl (panics, refused) ↦ inl (rw panics refl, inl refused)
  | inr (s1, goes, keeps) ↦ elim (Bool-cases (is_unrecoverable (stream_item item))) [
    | inl fails ↦ inr (_, false, rw (goes, fails) refl, callers-send_disconnect s1 ∙ keeps)
    | inr on ↦ elim (poll_read-callers s1 items) [
      | inl (panics, refused) ↦ inl (rw (goes, on) panics, inr (s1, goes, refused))
      | inr (s', b, eq, same) ↦ inr (s', b, rw (goes, on) eq, same ∙ keeps)
    ]
  ]
]

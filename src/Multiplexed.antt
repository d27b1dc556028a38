-- ===== src/Multiplexed.antt =====
-- The matching of replies to requests on a shared connection: `PipelineSink` of
-- redis/src/aio/multiplexed_connection.rs, without client-side caching. A caller's channel is a number;
-- `sent` and `pushed` record what was sent to the callers and to the receiver of push messages.
pub mod Queue
pub mod Replies
use redis_rs.Base.{
  ℕ, zero, suc, ◌+◌, ◌-◌, Bool, true, false, Option, none, some, List, [], ◌∷◌, ◌++◌, length, ltb,
  if◌then◌else◌,
}
use redis_rs.Errors.Server.{ServerError}
use redis_rs.Errors.Redis.{
  RedisError, internal, transaction_aborted, io, broken_pipe, is_unrecoverable_error,
}
use redis_rs.Value.Defs.{
  Value, Values, array, push, server_error, end, of_list, PushKind, disconnection, unsubscribe,
  punsubscribe, sunsubscribe, subscribe, psubscribe, ssubscribe, Outcome, ok, panicked, ◌>>=◌,
}

-- `RedisResult<Value>`, as the stream yields it and the callers receive it.
pub data Reply : Type 0 where
  reply : Value → Reply
  failure : RedisError → Reply

pub data ErrorOrErrors : Type 0 where
  errors : List (ℕ × ServerError) → ErrorOrErrors
  first_error : RedisError → ErrorOrErrors

pub record PipelineResponseExpectation : Type 0 where
  pub skipped_response_count : ℕ
  pub expected_response_count : ℕ
  pub is_transaction : Bool
  pub seen_responses : ℕ

pub data ResponseAggregate : Type 0 where
  single_command : ResponseAggregate
  gathering : List Value → ErrorOrErrors → PipelineResponseExpectation → ResponseAggregate

-- `ResponseAggregate::new`.
unfoldable pub new_aggregate : Option PipelineResponseExpectation → ResponseAggregate
new_aggregate none = single_command
new_aggregate (some expectation) = gathering [] (errors []) expectation

pub record InFlight : Type 0 where
  pub output : Option ℕ
  pub response_aggregate : ResponseAggregate

pub record PipelineSink : Type 0 where
  pub in_flight : List InFlight
  pub failed : Option RedisError
  pub has_push_sender : Bool
  pub sent : List (ℕ × Reply)
  pub pushed : List (PushKind × Values)

-- `PushKind::has_reply`.
unfoldable pub has_reply : PushKind → Bool
has_reply unsubscribe = true
has_reply punsubscribe = true
has_reply sunsubscribe = true
has_reply subscribe = true
has_reply psubscribe = true
has_reply ssubscribe = true
has_reply _ = false

unfoldable pub send_push : PushKind → Values → PipelineSink → PipelineSink
send_push kind vs s =
    if s.has_push_sender then record s { pushed = s.pushed ++ (kind, vs) ∷ [] } else s

unfoldable pub send_disconnect : PipelineSink → PipelineSink
unfolding send_push
send_disconnect s = record (send_push disconnection end s) { has_push_sender = false }

-- `if let Some(output) = output.take() { output.send(result) }`.
unfoldable pub send : Option ℕ → Reply → PipelineSink → PipelineSink
send none r s = s
send (some caller) r s = record s { sent = s.sent ++ (caller, r) ∷ [] }

unfoldable pub server_error_of : Value → Option ServerError
server_error_of (server_error e) = some e
server_error_of _ = none

-- The error of a skipped reply, the `seen`-th one. The subtraction of 2 panics below 2.
unfoldable pub note_error : ℕ → List (ℕ × ServerError) → Option ServerError → Outcome ErrorOrErrors
note_error seen found none = ok (errors found)
note_error seen found (some e) =
    if ltb seen 2 then panicked else ok (errors (found ++ (seen - 2, e) ∷ []))

unfoldable pub skipped_errors : Bool → ℕ → ErrorOrErrors → Reply → Outcome ErrorOrErrors
unfolding note_error server_error_of
skipped_errors false seen found r = ok found
skipped_errors true seen (first_error e) r = ok (first_error e)
skipped_errors true seen (errors found) (reply v) = note_error seen found (server_error_of v)
skipped_errors true seen (errors found) (failure e) = ok (first_error e)

-- The buffer and the errors after a reply that is kept.
unfoldable pub kept_values : List Value → Reply → List Value
kept_values buffer (reply v) = buffer ++ v ∷ []
kept_values buffer (failure e) = buffer

unfoldable pub kept_errors : ErrorOrErrors → Reply → ErrorOrErrors
kept_errors found (reply v) = found
kept_errors (errors found) (failure e) = first_error e
kept_errors (first_error e') (failure e) = first_error e'

-- The response to a request that has all its replies.
unfoldable pub response : ErrorOrErrors → List Value → Reply
response (errors []) buffer = reply (array (of_list buffer))
response (errors (e ∷ es)) buffer = failure (transaction_aborted (e ∷ es))
response (first_error e) buffer = failure e

unfoldable pub push_front : Option ℕ → ResponseAggregate → PipelineSink → PipelineSink
push_front output aggregate s = record s {
  in_flight = record { output = output; response_aggregate = aggregate } ∷ s.in_flight;
}

-- After a reply that is kept: more are needed, or the caller gets the response.
unfoldable pub gather :
    Option ℕ
    → List Value
    → ErrorOrErrors
    → PipelineResponseExpectation
    → PipelineSink
    → PipelineSink
unfolding push_front send response
gather output buffer found e s =
    if ltb (length buffer) e.expected_response_count
    then push_front output (gathering buffer found e) s
    else send output (response found buffer) s

-- The `Pipeline` branch of `send_result`, by the number of replies that are still to be skipped.
unfoldable pub receive :
    ℕ
    → Option ℕ
    → List Value
    → ErrorOrErrors
    → PipelineResponseExpectation
    → Reply
    → PipelineSink
    → Outcome PipelineSink
unfolding skipped_errors push_front gather kept_values kept_errors
receive zero output buffer found e r s = ok (
    gather output (kept_values buffer r) (kept_errors found r)
      (record e { seen_responses = suc e.seen_responses }) s)
receive (suc skipped) output buffer found e r s = do
  found' ← skipped_errors e.is_transaction (suc e.seen_responses) found r
  ok (
      push_front output
        (gathering buffer found'
          (record e { skipped_response_count = skipped; seen_responses = suc e.seen_responses }))
        s)

unfoldable pub answer : Option ℕ → ResponseAggregate → Reply → PipelineSink → Outcome PipelineSink
unfolding send receive
answer output single_command r s = ok (send output r s)
answer output (gathering buffer found e) r s =
    receive e.skipped_response_count output buffer found e r s

unfoldable pub answer_front : List InFlight → Reply → PipelineSink → Outcome PipelineSink
unfolding answer
answer_front [] r s = ok s
answer_front (entry ∷ rest) r s =
    answer entry.output entry.response_aggregate r (record s { in_flight = rest })

unfoldable pub push_of : Reply → Option (PushKind × Values)
push_of (reply (push kind vs)) = some (kind, vs)
push_of _ = none

-- The push message of a reply goes to the receiver of push messages, and the rest to a caller.
unfoldable pub dispatch : Option (PushKind × Values) → Reply → PipelineSink → Outcome PipelineSink
unfolding has_reply send_push answer_front
dispatch none r s = answer_front s.in_flight r s
dispatch (some (kind, vs)) r s =
    if has_reply kind
    then answer_front (send_push kind vs s).in_flight r (send_push kind vs s)
    else ok (send_push kind vs s)

unfoldable pub send_result : PipelineSink → Reply → Outcome PipelineSink
unfolding dispatch push_of
send_result s r = dispatch (push_of r) r s

-- `closed_connection_error` of redis/src/errors/mod.rs.
unfoldable pub closed_connection_error : RedisError
closed_connection_error = internal io (some broken_pipe)

unfoldable pub stream_item : Option Reply → Reply
stream_item (some r) = r
stream_item none = failure closed_connection_error

unfoldable pub is_unrecoverable : Reply → Bool
unfolding is_unrecoverable_error
is_unrecoverable (reply v) = false
is_unrecoverable (failure e) = is_unrecoverable_error e

-- `poll_read` over the items that are ready: whether it goes on to wait for more, or fails.
unfoldable pub poll_read : PipelineSink → List (Option Reply) → Outcome (PipelineSink × Bool)
unfolding send_result stream_item closed_connection_error is_unrecoverable send_disconnect
poll_read s [] = ok (s, true)
poll_read s (item ∷ items) = do
  s' ← send_result s (stream_item item)
  elim (is_unrecoverable (stream_item item)) [
    | true ↦ ok (send_disconnect s', false)
    | false ↦ poll_read s' items
  ]

-- What the write to the sink gave, and whether the caller has gone away.
unfoldable pub write_request :
    Option ℕ
    → Option PipelineResponseExpectation
    → Option RedisError
    → PipelineSink
    → PipelineSink × Bool
unfolding send new_aggregate
write_request output expectation none s = (
  record s {
    in_flight =
        s.in_flight
        ++ record { output = output; response_aggregate = new_aggregate expectation } ∷ [];
  },
  true,
)
write_request output expectation (some e) s = (send output (failure e) s, false)

unfoldable pub receiver_dropped : (ℕ → Bool) → Option ℕ → Bool
receiver_dropped is_closed none = false
receiver_dropped is_closed (some caller) = is_closed caller

-- `start_send`: `is_closed` tells which callers have gone away, `written` what the write gave.
unfoldable pub start_send :
    (ℕ → Bool)
    → Option ℕ
    → Option PipelineResponseExpectation
    → Option RedisError
    → PipelineSink
    → PipelineSink × Bool
unfolding send write_request receiver_dropped
start_send is_closed output expectation written s =
    if receiver_dropped is_closed output then (s, true) else elim s.failed [
      | none ↦ write_request output expectation written s
      | some e ↦ (send output (failure e) (record s { failed = none }), false)
    ]

-- `send_disconnect_if_needed`.
unfoldable pub send_disconnect_if_needed : RedisError → PipelineSink → PipelineSink
unfolding send_disconnect is_unrecoverable_error
send_disconnect_if_needed e s = if is_unrecoverable_error e then send_disconnect s else s

-- What the stream below does when it is polled: it waits, or it is ready or has failed.
pub data Progress : Type 0 where
  pending ready : Progress
  failed_with : RedisError → Progress

-- `poll_ready`, after the reading: whether the sink takes a request, has to wait, or has failed.
unfoldable pub advance : PipelineSink → Progress → PipelineSink × Progress
unfolding send_disconnect_if_needed
advance s pending = (s, pending)
advance s ready = (s, ready)
advance s (failed_with e) = (record (send_disconnect_if_needed e s) { failed = some e }, ready)

-- `poll_ready` over the items that are ready; `none` is the error `()`.
unfoldable pub poll_ready :
    PipelineSink → List (Option Reply) → Progress → Outcome (PipelineSink × Option Progress)
unfolding poll_read advance
poll_ready s items progress = do
  (s', goes_on) ← poll_read s items
  if goes_on then ok ((advance s' progress).0, some (advance s' progress).1) else ok (s', none)

unfoldable pub flush_failed : PipelineSink → Progress → Outcome (PipelineSink × Option Progress)
unfolding send_disconnect_if_needed send_result
flush_failed s pending = ok (s, some pending)
flush_failed s ready = ok (s, some ready)
flush_failed s (failed_with e) = do
  s' ← send_result (send_disconnect_if_needed e s) (failure e)
  ok (s', none)

-- `poll_flush`, likewise.
unfoldable pub poll_flush :
    PipelineSink → List (Option Reply) → Progress → Outcome (PipelineSink × Option Progress)
unfolding poll_read flush_failed
poll_flush s items progress = do
  (s', goes_on) ← poll_read s items
  if goes_on then flush_failed s' progress else ok (s', none)

-- ===== src/Pipeline/Sync.antt =====
-- That both kinds of connection return the same for the same replies: `Connection::req_packed_commands`
-- of redis/src/connection.rs and `PipelineSink` of redis/src/aio/multiplexed_connection.rs.
use redis_rs.Base.{
  ℕ, suc, ◌+◌, ◌≤◌, ◌<◌, ◌≡◌, refl, sym, ap, ◌∙◌, false, Option, none, some, List, [], ◌∷◌, ◌++◌,
  map, append_assoc, append-nil, length, ltb-ge, lt→ltb, ◌==◌, arith,
}
use redis_rs.Errors.Server.{ServerError}
use redis_rs.Value.Defs.{
  Value, array, push, server_error, to_list, of_list, to_list-of_list, Outcome, ok, err, ◌>>=◌,
}
use redis_rs.Multiplexed.{Reply, reply, failure, push_of, server_error_of, response, errors}
use redis_rs.Multiplexed.Replies.{
  Exchange, command, batch, transaction, values_of, answer_of, errors_from, cons_error, Answerable,
  AllPlain, Plain,
}
use redis_rs.Pipeline.{
  Reads, record_error, record_item, record_value, record_reply, finished, read_loop, receive,
}

-- The offset and the count with which the replies to a pipeline are read.
abbrev pub offset_of : Exchange → ℕ
offset_of (command caller v) = 0
offset_of (batch caller v vs) = 0
offset_of (transaction caller multi queued exec) = suc (length queued)

abbrev pub count_of : Exchange → ℕ
count_of (command caller v) = 1
count_of (batch caller v vs) = suc (length vs)
count_of (transaction caller multi queued exec) = 1

abbrev pub IsPipeline : Exchange → Type 0
IsPipeline (command caller v) = ⊥
IsPipeline (batch caller v vs) = Unit
IsPipeline (transaction caller multi queued exec) = Unit

-- The values of an answer, as `send_packed_commands` returns them.
unfoldable pub answered_values : Reply → Outcome (List Value)
unfolding to_list
answered_values (reply (array vs)) = ok (to_list vs)
answered_values (reply v) = ok (v ∷ [])
answered_values (failure e) = err e

abbrev pub complete : Outcome (List Value) → Outcome (Option (List Value))
complete r = r >>= λ vs. ok (some vs)

record_value-kept :
    (offset : ℕ) (v : Value) (s : Reads)
    → Plain v
    → offset ≤ s.idx
    → record_value offset v s ≡ ok (record s { rv = s.rv ++ v ∷ [] })
unfolding record_value record_error record_item push_of
record_value-kept offset (push kind vs) s plain h = cc
record_value-kept offset _ s plain h = rw (ltb-ge s.idx offset h) refl

suc_ne_zero : (i : ℕ) → (suc i == 0) ≡ false
suc_ne_zero i = ground arith

record_value-skipped :
    (offset : ℕ) (v : Value) (s : Reads) (i : ℕ)
    → Plain v
    → s.idx ≡ suc i
    → suc i < offset
    → record_value offset v s
      ≡ ok (record s { found = s.found ++ cons_error i (server_error_of v) [] })
unfolding record_value record_error record_item push_of server_error_of
record_value-skipped offset (push kind vs) s i plain eq h = cc
record_value-skipped offset (server_error e) s i plain eq h =
    rw (eq, lt→ltb (suc i) offset h, suc_ne_zero i)
      (ap (λ n. ok (record s { idx = suc i; found = s.found ++ (n, e) ∷ [] })) (omega arith))
record_value-skipped offset _ s i plain eq h =
    rw (eq, lt→ltb (suc i) offset h, append-nil s.found) refl

read_loop-step :
    (offset : ℕ) (r : Reply) (rs : List Reply) (s s' : Reads)
    → s.idx < offset + s.count
    → record_reply offset r s ≡ ok s'
    → read_loop offset (r ∷ rs) s ≡ read_loop offset rs (record s' { idx = suc s'.idx })
unfolding read_loop
read_loop-step offset r rs s s' more recorded =
    rw (lt→ltb s.idx (offset + s.count) more, read_loop, recorded) refl

found-append :
    (i : ℕ) (es ds : List (ℕ × ServerError)) (o : Option ServerError)
    → (es ++ cons_error i o []) ++ ds ≡ es ++ cons_error i o ds
found-append i es ds none = ap (λ l. l ++ ds) (append-nil es)
found-append i es ds (some e) = append_assoc es ((i, e) ∷ []) ds

read_loop-kept :
    (offset : ℕ) (vs : List Value) (s : Reads)
    → AllPlain vs
    → offset ≤ s.idx
    → s.idx + length vs ≡ offset + s.count
    → read_loop offset (map reply vs) s ≡ complete (finished s.found s.first_err (s.rv ++ vs))
unfolding read_loop record_reply
read_loop-kept offset [] s plain h e =
    rw (ltb-ge s.idx (offset + s.count) (omega (arith, e)), append-nil s.rv, read_loop) refl
read_loop-kept offset (v ∷ vs) s plain h e =
    read_loop-step offset (reply v) (map reply vs) s (record s { rv = s.rv ++ v ∷ [] })
      (omega (arith, e)) (record_value-kept offset v s plain.0 h)
    ∙ (read_loop-kept offset vs (record s { idx = suc s.idx; rv = s.rv ++ v ∷ [] }) plain.1
          (omega arith) (omega (arith, e))
        ∙ ap (λ rv. complete (finished s.found s.first_err rv)) (append_assoc s.rv (v ∷ []) vs))

-- The replies to the commands of a transaction, `i` of which came before, and the one behind them.
read_loop-skipped :
    (queued : List Value) (exec : Value) (s : Reads) (i offset : ℕ)
    → AllPlain queued
    → Plain exec
    → s.idx ≡ suc i
    → suc i + length queued ≡ offset
    → s.count ≡ 1
    → read_loop offset (map reply (queued ++ exec ∷ [])) s
      ≡ complete (finished (s.found ++ errors_from i queued) s.first_err (s.rv ++ exec ∷ []))
unfolding read_loop record_reply
read_loop-skipped [] exec s i offset plain last eq e one =
    read_loop-kept offset (exec ∷ []) s (last, tt) (omega (arith, eq, e))
      (omega (arith, eq, e, one))
    ∙ ap (λ es. complete (finished es s.first_err (s.rv ++ exec ∷ []))) (sym (append-nil s.found))
read_loop-skipped (v ∷ vs) exec s i offset plain last eq e one =
    let found' = s.found ++ cons_error i (server_error_of v) [] in
    read_loop-step offset (reply v) (map reply (vs ++ exec ∷ [])) s (record s { found = found' })
      (omega (arith, e, eq)) (record_value-skipped offset v s i plain.0 eq (omega (arith, e)))
    ∙ (read_loop-skipped vs exec (record s { idx = suc s.idx; found = found' }) (suc i) offset
          plain.1 last (ap suc eq) (omega (arith, e)) one
        ∙ ap (λ es. complete (finished es s.first_err (s.rv ++ exec ∷ [])))
            (found-append i s.found (errors_from (suc i) vs) (server_error_of v)))

record_value-multi :
    (offset : ℕ) (v : Value) (s : Reads)
    → Plain v
    → server_error_of v ≡ none
    → s.idx < offset
    → record_value offset v s ≡ ok s
unfolding record_value record_item push_of server_error_of
record_value-multi offset (push kind vs) s plain fine h = cc
record_value-multi offset (server_error e) s plain fine h = cc
record_value-multi offset _ s plain fine h = rw (lt→ltb s.idx offset h) refl

-- What the loop starts with.
abbrev started : ℕ → Reads
started count = record { idx = 0; count = count; rv = []; first_err = none; found = [] }

receive-transaction :
    (multi : Value) (queued : List Value) (exec : Value)
    → Answerable (transaction none multi queued exec)
    → receive (suc (length queued)) 1 (map reply (multi ∷ queued ++ exec ∷ []))
      ≡ complete (finished (errors_from 0 queued) none (exec ∷ []))
unfolding receive record_reply
receive-transaction multi queued exec plain =
    read_loop-step (suc (length queued)) (reply multi) (map reply (queued ++ exec ∷ [])) (started 1)
      (started 1) (omega arith)
      (record_value-multi (suc (length queued)) multi (started 1) plain.1 plain.0 (omega arith))
    ∙ read_loop-skipped queued exec (record (started 1) { idx = 1 }) 0 (suc (length queued)) plain.2
        plain.3 refl (omega arith) refl

finished-response :
    (es : List (ℕ × ServerError)) (v : Value)
    → finished es none (v ∷ []) ≡ answered_values (response (errors es) (v ∷ []))
unfolding finished answered_values response of_list
finished-response [] v = refl
finished-response (e ∷ es) v = refl

-- For the replies to a pipeline, none of which is a push message, and with MULTI not refused, the
-- blocking connection returns the values or the error that the shared connection answers with.
pub receive-answered_values :
    (x : Exchange)
    → IsPipeline x
    → Answerable x
    → receive (offset_of x) (count_of x) (map reply (values_of x))
      ≡ complete (answered_values (answer_of x).1)
unfolding receive answered_values
receive-answered_values (command caller v) p plain = absurd p
receive-answered_values (batch caller v vs) p plain =
    read_loop-kept 0 (v ∷ vs) (started (suc (length vs))) plain (omega arith) (omega arith)
    ∙ ap (λ rv. complete (ok rv)) (sym (to_list-of_list (v ∷ vs)))
receive-answered_values (transaction caller multi queued exec) p plain =
    receive-transaction multi queued exec plain
    ∙ ap complete (finished-response (errors_from 0 queued) exec)

-- ===== src/Examples/Replies.antt =====
-- The theorems on the matching of replies to requests at concrete inputs.
use redis_rs.Base.{◌≡◌, refl, ◌⊎◌, Bool, true, none, some, List, [], ◌∷◌, ◌++◌, map, codes}
use redis_rs.Errors.Server.{known, exec_abort, no_script}
use redis_rs.Value.Defs.{okay, nil, simple_string, server_error, end, push, message, ok, panicked}
use redis_rs.Multiplexed.{
  reply, InFlight, PipelineSink, single_command, push_of, server_error_of, poll_read,
}
use redis_rs.Multiplexed.Queue.{callers, MultiRefused, poll_read-callers}
use redis_rs.Multiplexed.Replies.{
  Exchange, command, batch, transaction, entry_of, all_values, answered_all, poll_read-exchanges,
}

-- A caller that waits for a value, one that ignores its value, a pipeline and a transaction one of
-- whose commands the server refuses.
abbrev exchanges : List Exchange
exchanges =
    command (some 1) nil
    ∷ command none okay
    ∷ batch (some 2) okay (nil ∷ [])
    ∷ transaction (some 3) okay
        (simple_string (codes "QUEUED") ∷ server_error (known no_script none) ∷ [])
        (server_error (known exec_abort none))
    ∷ []

abbrev sink : PipelineSink
sink = record {
  in_flight =
      map entry_of exchanges
      ++ record { output = some 4; response_aggregate = single_command } ∷ [];
  failed = none;
  has_push_sender = true;
  sent = [];
  pushed = [];
}

abbrev later : List InFlight
later = record { output = some 4; response_aggregate = single_command } ∷ []

poll_read-exchanges_example :
    poll_read sink (all_values exchanges)
    ≡ ok (record (answered_all exchanges sink) { in_flight = later }, true)
unfolding push_of server_error_of
poll_read-exchanges_example =
    poll_read-exchanges exchanges later sink
      (refl, (refl, ((refl, (refl, tt)), ((refl, refl, (refl, (refl, tt)), refl), tt)))) refl

poll_read-callers_example :
    ((poll_read sink (some (reply (push message end)) ∷ none ∷ []) ≡ panicked)
      × MultiRefused sink (some (reply (push message end)) ∷ none ∷ []))
    ⊎ ((s' : PipelineSink) × (b : Bool) × (poll_read sink
            (some (reply (push message end)) ∷ none ∷ [])
          ≡ ok (s', b))
        × (callers s' ≡ callers sink))
poll_read-callers_example = poll_read-callers sink (some (reply (push message end)) ∷ none ∷ [])

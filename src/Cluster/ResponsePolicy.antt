-- ===== src/Cluster/ResponsePolicy.antt =====
-- `ResponsePolicy` and its `for_command`, in redis/src/cluster_handling/routing.rs.
use redis_rs.Base.{String, Option, none, some, List, [], ◌∷◌, Bytes, one_of, if◌then◌else◌}

pub data LogicalAggregateOp : Type 0 where
  and_op : LogicalAggregateOp

pub data AggregateOp : Type 0 where
  min sum : AggregateOp

pub data ResponsePolicy : Type 0 where
  one_succeeded first_succeeded_non_empty_or_all_empty all_succeeded combine_arrays special
        combine_maps :
      ResponsePolicy
  aggregate_logical : LogicalAggregateOp → ResponsePolicy
  aggregate : AggregateOp → ResponsePolicy

abbrev logical_and_commands : List String
logical_and_commands = "SCRIPT EXISTS" ∷ []

abbrev sum_commands : List String
sum_commands =
    "DBSIZE" ∷ "DEL" ∷ "EXISTS" ∷ "SLOWLOG LEN" ∷ "TOUCH" ∷ "UNLINK" ∷ "LATENCY RESET"
    ∷ "PUBSUB NUMPAT" ∷ []

abbrev min_commands : List String
min_commands = "WAIT" ∷ []

abbrev all_succeeded_commands : List String
all_succeeded_commands =
    "ACL SETUSER" ∷ "ACL DELUSER" ∷ "ACL SAVE" ∷ "CLIENT SETNAME" ∷ "CLIENT SETINFO" ∷ "CONFIG SET"
    ∷ "CONFIG RESETSTAT" ∷ "CONFIG REWRITE" ∷ "FLUSHALL" ∷ "FLUSHDB" ∷ "FUNCTION DELETE"
    ∷ "FUNCTION FLUSH" ∷ "FUNCTION LOAD" ∷ "FUNCTION RESTORE" ∷ "MEMORY PURGE" ∷ "MSET"
    ∷ "JSON.MSET" ∷ "PING" ∷ "SCRIPT FLUSH" ∷ "SCRIPT LOAD" ∷ "SLOWLOG RESET" ∷ "UNWATCH" ∷ "WATCH"
    ∷ []

abbrev combine_arrays_commands : List String
combine_arrays_commands =
    "KEYS" ∷ "FT._ALIASLIST" ∷ "FT._LIST" ∷ "MGET" ∷ "JSON.MGET" ∷ "SLOWLOG GET" ∷ "PUBSUB CHANNELS"
    ∷ "PUBSUB SHARDCHANNELS" ∷ []

abbrev combine_maps_commands : List String
combine_maps_commands = "PUBSUB NUMSUB" ∷ "PUBSUB SHARDNUMSUB" ∷ []

abbrev one_succeeded_commands : List String
one_succeeded_commands = "FUNCTION KILL" ∷ "SCRIPT KILL" ∷ []

abbrev first_non_empty_commands : List String
first_non_empty_commands = "RANDOMKEY" ∷ []

abbrev special_commands : List String
special_commands =
    "LATENCY GRAPH" ∷ "LATENCY HISTOGRAM" ∷ "LATENCY HISTORY" ∷ "LATENCY DOCTOR" ∷ "LATENCY LATEST"
    ∷ "FUNCTION STATS" ∷ "MEMORY MALLOC-STATS" ∷ "MEMORY DOCTOR" ∷ "MEMORY STATS" ∷ "INFO" ∷ []

unfoldable pub for_command : Bytes → Option ResponsePolicy
for_command c =
    if one_of c logical_and_commands
    then some (aggregate_logical and_op)
    else if one_of c sum_commands
    then some (aggregate sum)
    else if one_of c min_commands
    then some (aggregate min)
    else if one_of c all_succeeded_commands
    then some all_succeeded
    else if one_of c combine_arrays_commands
    then some combine_arrays
    else if one_of c combine_maps_commands
    then some combine_maps
    else if one_of c one_succeeded_commands
    then some one_succeeded
    else if one_of c first_non_empty_commands
    then some first_succeeded_non_empty_or_all_empty
    else if one_of c special_commands
    then some special
    else none

-- ===== src/Cluster/BaseRouting.antt =====
-- `MultiSlotArgPattern`, `RouteBy` and `base_routing` of redis/src/cluster_handling/routing.rs: where a
-- command's name sends it.
use redis_rs.Base.{String, List, [], ◌∷◌, Bytes, one_of, if◌then◌else◌}

pub data MultiSlotArgPattern : Type 0 where
  keys_only key_value_pairs keys_and_last_arg key_with_two_arg_triples : MultiSlotArgPattern

pub data RouteBy : Type 0 where
  all_nodes all_primaries first_key random second_arg second_arg_after_key_count second_arg_slot
        streams_index third_arg_after_key_count undefined :
      RouteBy
  multi_shard : MultiSlotArgPattern → RouteBy

abbrev pub all_nodes_commands : List String
all_nodes_commands =
    "ACL SETUSER" ∷ "ACL DELUSER" ∷ "ACL SAVE" ∷ "CLIENT SETNAME" ∷ "CLIENT SETINFO" ∷ "SLOWLOG GET"
    ∷ "SLOWLOG LEN" ∷ "SLOWLOG RESET" ∷ "CONFIG SET" ∷ "CONFIG RESETSTAT" ∷ "CONFIG REWRITE"
    ∷ "SCRIPT FLUSH" ∷ "SCRIPT LOAD" ∷ "LATENCY RESET" ∷ "LATENCY GRAPH" ∷ "LATENCY HISTOGRAM"
    ∷ "LATENCY HISTORY" ∷ "LATENCY DOCTOR" ∷ "LATENCY LATEST" ∷ "PUBSUB NUMPAT" ∷ "PUBSUB CHANNELS"
    ∷ "PUBSUB NUMSUB" ∷ "PUBSUB SHARDCHANNELS" ∷ "PUBSUB SHARDNUMSUB" ∷ "SCRIPT KILL"
    ∷ "FUNCTION KILL" ∷ "FUNCTION STATS" ∷ []

abbrev pub all_primaries_commands : List String
all_primaries_commands =
    "DBSIZE" ∷ "DEBUG" ∷ "FLUSHALL" ∷ "FLUSHDB" ∷ "FT._ALIASLIST" ∷ "FT._LIST" ∷ "FUNCTION DELETE"
    ∷ "FUNCTION FLUSH" ∷ "FUNCTION LOAD" ∷ "FUNCTION RESTORE" ∷ "INFO" ∷ "KEYS" ∷ "MEMORY DOCTOR"
    ∷ "MEMORY MALLOC-STATS" ∷ "MEMORY PURGE" ∷ "MEMORY STATS" ∷ "PING" ∷ "SCRIPT EXISTS" ∷ "UNWATCH"
    ∷ "WAIT" ∷ "RANDOMKEY" ∷ "WAITAOF" ∷ []

abbrev pub keys_only_commands : List String
keys_only_commands = "MGET" ∷ "DEL" ∷ "EXISTS" ∷ "UNLINK" ∷ "TOUCH" ∷ "WATCH" ∷ []

abbrev pub key_value_commands : List String
key_value_commands = "MSET" ∷ []

abbrev pub keys_and_last_commands : List String
keys_and_last_commands = "JSON.MGET" ∷ []

abbrev pub triple_commands : List String
triple_commands = "JSON.MSET" ∷ []

abbrev undefined_commands : List String
undefined_commands = "SCAN" ∷ "SHUTDOWN" ∷ "SLAVEOF" ∷ "REPLICAOF" ∷ []

abbrev third_arg_commands : List String
third_arg_commands =
    "BLMPOP" ∷ "BZMPOP" ∷ "EVAL" ∷ "EVALSHA" ∷ "EVALSHA_RO" ∷ "EVAL_RO" ∷ "FCALL" ∷ "FCALL_RO" ∷ []

abbrev second_arg_commands : List String
second_arg_commands =
    "BITOP" ∷ "MEMORY USAGE" ∷ "PFDEBUG" ∷ "XGROUP CREATE" ∷ "XGROUP CREATECONSUMER"
    ∷ "XGROUP DELCONSUMER" ∷ "XGROUP DESTROY" ∷ "XGROUP SETID" ∷ "XINFO CONSUMERS" ∷ "XINFO GROUPS"
    ∷ "XINFO STREAM" ∷ "OBJECT ENCODING" ∷ "OBJECT FREQ" ∷ "OBJECT IDLETIME" ∷ "OBJECT REFCOUNT"
    ∷ "JSON.DEBUG" ∷ []

abbrev second_arg_count_commands : List String
second_arg_count_commands =
    "LMPOP" ∷ "SINTERCARD" ∷ "ZDIFF" ∷ "ZINTER" ∷ "ZINTERCARD" ∷ "ZMPOP" ∷ "ZUNION" ∷ []

abbrev streams_commands : List String
streams_commands = "XREAD" ∷ "XREADGROUP" ∷ []

abbrev random_commands : List String
random_commands =
    "ACL DRYRUN" ∷ "ACL GENPASS" ∷ "ACL GETUSER" ∷ "ACL HELP" ∷ "ACL LIST" ∷ "ACL LOG" ∷ "ACL USERS"
    ∷ "ACL WHOAMI" ∷ "AUTH" ∷ "BGSAVE" ∷ "CLIENT GETNAME" ∷ "CLIENT GETREDIR" ∷ "CLIENT ID"
    ∷ "CLIENT INFO" ∷ "CLIENT KILL" ∷ "CLIENT PAUSE" ∷ "CLIENT REPLY" ∷ "CLIENT TRACKINGINFO"
    ∷ "CLIENT UNBLOCK" ∷ "CLIENT UNPAUSE" ∷ "CLUSTER COUNT-FAILURE-REPORTS" ∷ "CLUSTER INFO"
    ∷ "CLUSTER KEYSLOT" ∷ "CLUSTER MEET" ∷ "CLUSTER MYSHARDID" ∷ "CLUSTER NODES"
    ∷ "CLUSTER REPLICAS" ∷ "CLUSTER RESET" ∷ "CLUSTER SET-CONFIG-EPOCH" ∷ "CLUSTER SHARDS"
    ∷ "CLUSTER SLOTS" ∷ "COMMAND COUNT" ∷ "COMMAND GETKEYS" ∷ "COMMAND LIST" ∷ "COMMAND"
    ∷ "CONFIG GET" ∷ "ECHO" ∷ "FUNCTION LIST" ∷ "LASTSAVE" ∷ "LOLWUT" ∷ "MODULE LIST"
    ∷ "MODULE LOAD" ∷ "MODULE LOADEX" ∷ "MODULE UNLOAD" ∷ "READONLY" ∷ "READWRITE" ∷ "SAVE"
    ∷ "SCRIPT SHOW" ∷ "TFCALL" ∷ "TFCALLASYNC" ∷ "TFUNCTION DELETE" ∷ "TFUNCTION LIST"
    ∷ "TFUNCTION LOAD" ∷ "TIME" ∷ []

abbrev slot_commands : List String
slot_commands =
    "CLUSTER ADDSLOTS" ∷ "CLUSTER COUNTKEYSINSLOT" ∷ "CLUSTER DELSLOTS" ∷ "CLUSTER DELSLOTSRANGE"
    ∷ "CLUSTER GETKEYSINSLOT" ∷ "CLUSTER SETSLOT" ∷ []

unfoldable pub base_routing : Bytes → RouteBy
base_routing c =
    if one_of c all_nodes_commands
    then all_nodes
    else if one_of c all_primaries_commands
    then all_primaries
    else if one_of c keys_only_commands
    then multi_shard keys_only
    else if one_of c key_value_commands
    then multi_shard key_value_pairs
    else if one_of c keys_and_last_commands
    then multi_shard keys_and_last_arg
    else if one_of c triple_commands
    then multi_shard key_with_two_arg_triples
    else if one_of c undefined_commands
    then undefined
    else if one_of c third_arg_commands
    then third_arg_after_key_count
    else if one_of c second_arg_commands
    then second_arg
    else if one_of c second_arg_count_commands
    then second_arg_after_key_count
    else if one_of c streams_commands
    then streams_index
    else if one_of c random_commands
    then random
    else if one_of c slot_commands
    then second_arg_slot
    else first_key

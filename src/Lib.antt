-- ===== src/Lib.antt =====
-- Verification library of redis-rs, the Redis client: a model of the parts that decide what is sent where
-- and what a reply means, with the theorems that hold of them.
--
-- The program. A command is built in a buffer (redis/src/cmd.rs) and packed for the wire; replies are
-- parsed into values (redis/src/parser.rs, redis/src/types.rs), and error replies into errors
-- (redis/src/errors). In a cluster, a request is routed by the slot of its keys
-- (redis/src/cluster_handling/routing.rs, redis/src/commands/mod.rs), a request on keys of several slots
-- is split, and the replies are combined; the node of a slot is found in the slot map
-- (redis/src/cluster_handling/slot_map.rs, slot_range_map.rs), which the ranges of CLUSTER SLOTS fill.
--
-- The files.
--   Base          numbers, lists, bytes and decimal digits, as the standard library of Rust has them.
--   Errors        Server: ServerErrorKind, ServerError and err_parser. Redis: RedisError, its
--                 classification and redirect_node. Retry: what of them the library acts on.
--   Value         Integer: i64. Defs: Value, PushKind, VerbatimFormat and RedisResult. Methods: the
--                 methods of Value, extract_error first. Convert: the conversions of replies
--                 that client-side caching uses. Args: ToRedisArgs and FromRedisValue. RoundTrip: the
--                 two against one another.
--   Cmd           Cmd with its buffer and offsets. Args and Index: args_iter and arg_idx. Pack and
--                 Length: write_command and args_len.
--   Resp          Stream: the parsers of the combine crate, as an interface. Text: UTF-8 and trimming.
--                 Parser: value and its branches. Digits and RoundTrip: what a packed command is read as.
--   Cluster       Slot: slots, routes and hash tags. Properties, ResponsePolicy, BaseRouting: the tables
--                 of commands; Fanout relates two of them. Routable: values as requests, and the
--                 commands on which arg_idx does not panic, as it can on one with cursors.
--                 MultiShard: the split by slot. Routing: for_routable. Aggregate: the combination of
--                 replies. SlotRangeMap and SlotMap: the node of a slot; SlotMap/Snapshot: the shards
--                 that read strategies are given. Topology: parse_slots. Pipeline: the route of a
--                 pipeline (async_connection/routing.rs). RoundRobin: reads in turn
--                 (read_routing/round_robin_replica.rs). Retry: waits (client.rs).
--                 Address: the text of a node's address. Request: what becomes of a request when an
--                 attempt has ended (async_connection/request.rs); Settled, Redirection and Attempts are
--                 about choose_response, Action about PollFlushAction. Inner: the requests that a
--                 ClusterConnInner works on (async_connection/mod.rs); Counts, Conserved, Steps and Reach
--                 follow a caller through its steps.
--                 Connections: the connection that a request is sent on (async_connection/mod.rs); Ready
--                 and Covers say which nodes are connected and permitted, Choice which is chosen.
--                 Blocking: requests of the blocking connection (sync_connection/mod.rs). Connect: its
--                 connections. Loop: the loop of request. Calm and Ends: that it comes to an end.
--   Multiplexed   the matching of replies to requests on a shared connection, PipelineSink of
--                 redis/src/aio/multiplexed_connection.rs. Queue: who is answered. Replies: with what.
--   Pipeline      pipelines (redis/src/pipeline.rs) and the reading of their replies on a blocking
--                 connection (redis/src/connection.rs). Packed: what is written. Ignored: whose results
--                 are returned. Sync: the blocking connection beside the shared one.
--   Subscriptions the tracker of subscriptions (redis/src/subscription_tracker.rs). Members: what a request
--                 changes. Restore: the pipeline that restores them.
--   Caching       client-side caching (redis/src/caching). Lru: the lru crate, as an interface. Shards: the
--                 sharded cache and its counters. Manager: CacheManager. Commands: cmd.rs. Prepare:
--                 get_cached_cmd and get_cached_pipeline. Items and Changes: what each operation leaves of
--                 a key. History, Reads and Counts: the cache against what was done to it. Merge: commands
--                 on several keys. Prepared, Sent, Answers and Served: pipelines. Reuse: what is answered again, and
--                 invalidation.
--   Examples      every result at a concrete input.
--
-- Conventions. Text is a list of byte codes. A `HashMap` is a list of its entries, and the order in which
-- it is iterated a parameter; a `BTreeMap` is the list of its entries in order. A result is ok, an error
-- or a panic; integer sums outside `i64` panic, as with overflow checks. An `f64` is its 64 bits.
--
-- Fuel. The parser recurses on the levels that are left of max_recurse_depth = 100, which the source
-- counts upwards: beyond it the source fails as well. The loop of multi_shard takes its number of
-- rounds, one more than the number of arguments being enough, since each round moves on by an argument.
-- The loops that read replies recurse on the replies that have come, and those over requests on the
-- requests that are ready.
--
-- Concurrency. A task is its state and a function for each of its polls; what it waits for, such as the
-- replies that have come, the end of an attempt or the callers that have gone away, is an argument.
--
-- Parameters. The crates combine (parsers of tokens), crc16, itoa, lru and rand, the hash of a key, the
-- time, the parsing of floating-point numbers and their casts, the text that Debug gives a value, and read
-- strategies, which are trait objects.
--
-- Not modelled: sockets, TLS, authentication, the futures around the tasks and the recovery of the
-- connections of a cluster, which do I/O; the methods that a macro generates for each command; and, left to
-- later work, the other conversions of Rust values to arguments and back, sentinels, and the requests of a
-- blocking cluster connection to several nodes.
pub mod Base
pub mod Errors
pub mod Value
pub mod Cmd
pub mod Resp
pub mod Cluster
pub mod Subscriptions
pub mod Multiplexed
pub mod Pipeline
pub mod Caching
pub mod Examples

-- ===== src/Examples/Nodes.antt =====
-- The theorems on the nodes of a cluster, on pipelines and on waits at concrete inputs.
use redis_rs.Base.{
  some, get_elem?, length, ◌%◌, ℕ, ◌+◌, ◌≤◌, ◌<◌, ◌≡◌, refl, Option, List, [], ◌∷◌, Bytes, codes,
  arith,
}
use mathlib.Core.List.{Permᴰ}
use mathlib.Core.List.Permᴰ
use redis_rs.Value.Defs.{Outcome, ok}
use redis_rs.Cmd.{Cmd, new, write_arg}
use redis_rs.Cmd.Args.{write_args}
use redis_rs.Resp.Text.{from_utf8_lossy}
use redis_rs.Cmd.Index.{arg_idx-write_args}
use redis_rs.Cluster.Routable.{Searchable}
use redis_rs.Cluster.Slot.{Route, master}
use redis_rs.Cluster.MultiShard.{Routes, done}
use redis_rs.Cluster.SlotMap.{NodeAddress, SlotRange, Replicas, nodes, ReadCandidates, any_node}
use redis_rs.Base.{bytes_eq}
use redis_rs.Cluster.SlotRangeMap.{get}
use redis_rs.Cluster.Pipeline.{routes_for_commands, route_for_pipeline}
use redis_rs.Cluster.Pipeline.Verdict.{Verdict}
use redis_rs.Cluster.Pipeline.Answer.{route_for_pipeline-Verdict}
use redis_rs.Cluster.Retry.{default_params, max_u64, wait_time_for_retry}
use redis_rs.Cluster.Retry.Wait.{wait_time_for_retry-bounds}
use redis_rs.Cluster.Topology.{parse_slots, is_unspecified}
use redis_rs.Cluster.Topology.RoundTrip.{IsAddress, slots_value, parse_slots-slots_value}
use redis_rs.Cluster.RoundRobin.{SlotCounters, replicas_of, slot_of}
use redis_rs.Cluster.RoundRobin.Turns.{reads, get_elem?-reads}

abbrev first_byte : Bytes → ℕ
first_byte [] = 0
first_byte (c ∷ cs) = c

-- A command with a name and arguments.
abbrev searchable : ℕ → Bytes → List Bytes → Searchable
searchable b name rest = record {
  cmd = write_args new ((b ∷ name) ∷ rest);
  found = get_elem? ((b ∷ name) ∷ rest);
  is_found = arg_idx-write_args b name rest;
}

-- `SET a 1` and `GET a`.
abbrev pipeline : List Searchable
pipeline =
    searchable b'S' (codes "ET") (codes "a" ∷ codes "1" ∷ [])
    ∷ searchable b'G' (codes "ET") (codes "a" ∷ [])
    ∷ []

unsorted : Routes → Routes
unsorted routes = routes

unsorted-perm : (routes : Routes) → Permᴰ (unsorted routes) routes
unfolding unsorted
unsorted-perm routes = Permᴰ.refl routes

abbrev any_primary : Cmd → Route
any_primary c = record { slot = 5; slot_addr = master }

route_for_pipeline-Verdict_example :
    (routes : List (Option Route)) × (answer : Outcome (Option Route)) × (routes_for_commands
        first_byte unsorted any_primary 5 pipeline
      ≡ done routes)
    × (route_for_pipeline first_byte unsorted any_primary 5 pipeline ≡ done answer)
    × Verdict routes answer
unfolding write_args write_arg new
route_for_pipeline-Verdict_example =
    route_for_pipeline-Verdict first_byte unsorted unsorted-perm any_primary 5 pipeline
      (omega arith, (omega arith, tt))

wait_time_for_retry-bounds_example :
    (wait : ℕ) × (wait_time_for_retry (λ low high. low) default_params 3 ≡ ok wait)
    × (default_params.min_wait_time ≤ wait)
    × (wait < max_u64 default_params.max_wait_time (default_params.min_wait_time + 1))
wait_time_for_retry-bounds_example =
    wait_time_for_retry-bounds (λ low high. low) (λ low high h. (omega arith, h)) default_params 3
      (omega arith) (omega arith) (omega arith)

abbrev host : ℕ → NodeAddress
host port = record { host = codes "10.0.0.1"; port = port }

host-IsAddress : (port : ℕ) → port < 65536 → IsAddress (host port)
unfolding from_utf8_lossy is_unspecified bytes_eq
host-IsAddress port h = record {
  is_text = refl;
  is_specified = refl;
  is_known = refl;
  port_fits = h;
}

abbrev slots : List SlotRange
slots =
    record { start = 0; end_slot = 16383; master_node = host 7000; replica_nodes = host 7001 ∷ [] }
    ∷ []

parse_slots-slots_value_example : parse_slots (slots_value slots) (codes "node") ≡ ok slots
parse_slots-slots_value_example = parse_slots-slots_value (codes "node") slots (
  (
    omega arith,
    omega arith,
    host-IsAddress 7000 (omega arith),
    (host-IsAddress 7001 (omega arith), tt),
  ),
  tt,
)

abbrev two_replicas : Replicas
two_replicas = record { first = host 7001; rest = host 7002 ∷ [] }

abbrev candidates : ReadCandidates
candidates = any_node 9 (host 7000) two_replicas

abbrev counted : SlotCounters
counted = record { slots = record { first = 0; last = 99; value = 0 } ∷ []; counters = 0 ∷ [] }

get_elem?-reads_example :
    (a : NodeAddress) × (get_elem?
        (nodes (replicas_of candidates))
        ((0 + 3) % length (nodes (replicas_of candidates)))
      ≡ some a)
    × (get_elem? (reads 5 counted candidates) 3 ≡ some (ok a))
unfolding get slot_of
get_elem?-reads_example =
    get_elem?-reads 5 counted candidates 0 0 3 refl refl (omega arith) (omega arith)

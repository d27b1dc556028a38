-- ===== src/Cluster/RoundRobin/Turns.antt =====
-- The nodes that reads of one slot reach one after the other.
use redis_rs.Base.{
  ℕ, zero, suc, ◌+◌, ◌%◌, ◌<◌, ◌≡◌, refl, ap, ◌∙◌, some, List, [], ◌∷◌, length, get_elem?, set,
  get_elem?-set_self, arith,
}
use redis_rs.Value.Defs.{Outcome, ok}
use redis_rs.Cluster.SlotRangeMap.{get}
use mathlib.Core.List.{Memᴰ}
use redis_rs.Cluster.SlotMap.{NodeAddress, Replicas, nodes, ReadCandidates, any_node, replicas_only}
use redis_rs.Cluster.SlotMap.Choice.{offered}
use redis_rs.Cluster.RoundRobin.{
  counter_values, SlotCounters, slot_of, replicas_of, next_index, node_at, route_read,
}

-- The nodes of so many reads of the same candidates.
unfoldable pub reads : ℕ → SlotCounters → ReadCandidates → List (Outcome NodeAddress)
unfolding route_read
reads zero state c = []
reads (suc n) state c = let (node, state') = route_read state c in node ∷ reads n state' c

-- The nodes from a turn on, round and round.
unfoldable turns : ℕ → ℕ → List NodeAddress → List (Outcome NodeAddress)
unfolding node_at
turns zero turn addresses = []
turns (suc n) turn addresses = node_at addresses turn ∷ turns n (turn + 1) addresses

get_elem?-some_lt :
    {A : Type 0} (xs : List A) (i : ℕ) (a : A) → get_elem? xs i ≡ some a → i < length xs
get_elem?-some_lt [] i a h = cc
get_elem?-some_lt (x ∷ xs) zero a h = omega arith
get_elem?-some_lt (x ∷ xs) (suc i) a h = omega (arith, get_elem?-some_lt xs i a h)

reads-turns :
    (n : ℕ) (state : SlotCounters) (c : ReadCandidates) (i turn : ℕ)
    → get (slot_of c) state.slots ≡ some i
    → get_elem? state.counters i ≡ some turn
    → turn + n < counter_values
    → reads n state c ≡ turns n turn (nodes (replicas_of c))
unfolding reads turns route_read next_index
reads-turns zero state c i turn h k l = refl
reads-turns (suc n) state c i turn h k l =
    let state' : SlotCounters = record state {
      counters = set state.counters i ((turn + 1) % counter_values);
    } in
    let e : (turn + 1) % counter_values ≡ turn + 1 = omega arith in
    let next : get_elem? state'.counters i ≡ some (turn + 1) =
      get_elem?-set_self state.counters i ((turn + 1) % counter_values)
        (get_elem?-some_lt state.counters i turn k)
      ∙ ap some e in
    rw (h, reads)
      (rw (k, next_index)
        (ap (◌∷◌ (node_at (nodes (replicas_of c)) turn))
          (reads-turns n state' c i (turn + 1) h next (omega arith))))

get_elem?-in_range :
    {A : Type 0} (xs : List A) (i : ℕ)
    → i < length xs
    → (a : A) × (get_elem? xs i ≡ some a) × Memᴰ a xs
get_elem?-in_range [] i h = absurd (omega arith)
get_elem?-in_range (x ∷ xs) zero h = (x, refl, Memᴰ.head refl)
get_elem?-in_range (x ∷ xs) (suc i) h =
    let (a, e, m) = get_elem?-in_range xs i (omega arith) in (a, e, Memᴰ.tail m)

node_at-nodes :
    (r : Replicas) (index : ℕ)
    → (a : NodeAddress) × (node_at (nodes r) index ≡ ok a) × Memᴰ a (nodes r)
unfolding node_at
node_at-nodes r index =
    let len = length (nodes r) in
    let (a, e, m) = get_elem?-in_range (nodes r) (index % len) (omega arith) in
    (a, rw (e, node_at) refl, m)

replicas_of-offered :
    (c : ReadCandidates) (a : NodeAddress) → Memᴰ a (nodes (replicas_of c)) → Memᴰ a (offered c)
unfolding replicas_of offered
replicas_of-offered (any_node slot primary replicas) a m = Memᴰ.tail m
replicas_of-offered (replicas_only slot replicas) a m = m

-- A read never panics, whatever the counters are and whether the slot has one, and the node it reaches is
-- a replica among the nodes that the strategy is offered.
pub route_read-offered :
    (state : SlotCounters) (c : ReadCandidates)
    → (a : NodeAddress) × ((route_read state c).0 ≡ ok a)
      × Memᴰ a (nodes (replicas_of c))
      × Memᴰ a (offered c)
unfolding route_read
route_read-offered state c =
    let (a, e, m) =
      node_at-nodes (replicas_of c) (next_index state (get (slot_of c) state.slots)).0 in
    (a, e, m, replicas_of-offered c a m)

get_elem?-turns :
    (n turn : ℕ) (addresses : List NodeAddress) (j : ℕ)
    → j < n
    → get_elem? (turns n turn addresses) j ≡ some (node_at addresses (turn + j))
unfolding turns
get_elem?-turns zero turn addresses j h = absurd (omega arith)
get_elem?-turns (suc n) turn addresses zero h = ap (λ k. some (node_at addresses k)) (omega arith)
get_elem?-turns (suc n) turn addresses (suc j) h =
    get_elem?-turns n (turn + 1) addresses j (omega arith)
    ∙ ap (λ k. some (node_at addresses k)) (omega arith)

-- Reads of one slot reach its replicas in turn, until the counter of the slot's shard wraps around: the
-- read number `j`, from 0, reaches the replica whose index is what the counter was before the first
-- read, plus `j`, modulo the number of replicas.
pub get_elem?-reads :
    (n : ℕ) (state : SlotCounters) (c : ReadCandidates) (i turn j : ℕ)
    → get (slot_of c) state.slots ≡ some i
    → get_elem? state.counters i ≡ some turn
    → turn + n < counter_values
    → j < n
    → (a : NodeAddress) × (get_elem?
          (nodes (replicas_of c))
          ((turn + j) % length (nodes (replicas_of c)))
        ≡ some a)
      × (get_elem? (reads n state c) j ≡ some (ok a))
unfolding node_at
get_elem?-reads n state c i turn j h k l m =
    let replicas = nodes (replicas_of c) in
    let (a, e, mem) = get_elem?-in_range replicas ((turn + j) % length replicas) (omega arith) in
    (
      a,
      e,
      ap (λ xs. get_elem? xs j) (reads-turns n state c i turn h k l)
          ∙ (get_elem?-turns n turn replicas j m ∙ rw (node_at, e) refl),
    )

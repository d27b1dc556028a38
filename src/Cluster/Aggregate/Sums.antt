-- ===== src/Cluster/Aggregate/Sums.antt =====
-- The sums that `aggregate` of redis/src/cluster_handling/routing.rs answers with.
use redis_rs.Base.{ℕ, ◌+◌, ◌≤◌, ◌≡◌, ap, List, [], ◌∷◌, map, le→leb, arith}
use redis_rs.Value.Integer.{pos, i64_max, in_i64, ◌+ℤ◌}
use redis_rs.Value.Defs.{int, ok}
use redis_rs.Cluster.ResponsePolicy.{sum}
use redis_rs.Cluster.Aggregate.{aggregate, aggregate_from, aggregate_step, checked}

abbrev pub total : List ℕ → ℕ
total [] = 0
total (n ∷ ns) = n + total ns

aggregate_from-sum :
    (acc : ℕ) (ns : List ℕ)
    → acc + total ns ≤ i64_max
    → aggregate_from sum (pos acc) (map (λ n. int (pos n)) ns) ≡ ok (pos (acc + total ns))
unfolding aggregate_from aggregate_step checked in_i64 ◌+ℤ◌
aggregate_from-sum acc [] h = ap (λ n. ok (pos n)) (omega arith)
aggregate_from-sum acc (n ∷ ns) h =
    let e : acc + n + total ns ≡ acc + (n + total ns) = omega arith in
    rw (le→leb (acc + n) i64_max (omega arith))
      (rw (aggregate_from-sum (acc + n) ns (omega arith)) (ap (λ k. ok (pos k)) e))

-- The counts that several nodes answer with, such as those of `DEL` and `DBSIZE`, become their total, if
-- that is an `i64`.
pub aggregate-sum :
    (ns : List ℕ)
    → total ns ≤ i64_max
    → aggregate (map (λ n. int (pos n)) ns) sum ≡ ok (int (pos (total ns)))
unfolding aggregate
aggregate-sum ns h =
    rw (aggregate_from-sum 0 ns (omega arith)) (ap (λ k. ok (int (pos k))) (omega arith))

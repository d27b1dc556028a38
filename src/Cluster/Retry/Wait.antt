-- ===== src/Cluster/Retry/Wait.antt =====
-- The bounds of the wait, and when it is drawn at all.
use redis_rs.Base.{ℕ, ◌+◌, ◌*◌, ◌^◌, ◌≤◌, ◌<◌, ◌≡◌, refl, le→leb, lt→ltb, arith}
use redis_rs.Value.Defs.{ok}
use redis_rs.Cluster.Routing.{u64_max}
use redis_rs.Cluster.Retry.{
  RetryParams, in_u64, max_u64, min_u64, upper_of, cluster_retry_wait_upper_ms, draw,
  wait_time_for_retry,
}

in_u64-fits : (n : ℕ) → n ≤ u64_max → in_u64 n ≡ ok n
unfolding in_u64
in_u64-fits n h = rw (le→leb n u64_max h) refl

-- The upper bound lies above the least wait, and within the longest wait unless that is not longer than the least.
upper_of-bounds :
    (capped min_wait max_wait : ℕ)
    → min_wait < u64_max
    → capped ≤ max_wait
    → (min_wait < upper_of capped min_wait)
      × (upper_of capped min_wait ≤ max_u64 max_wait (min_wait + 1))
unfolding upper_of
upper_of-bounds capped min_wait max_wait h k = ground arith

-- Unless the power or its product with the factor overflows, or the least wait is the largest number,
-- the wait is drawn without a panic, is at least the least wait, and is below the longest wait, or is the
-- least wait if the longest is no longer; whatever the draw, if it stays within its range.
pub wait_time_for_retry-bounds :
    (random_range : ℕ → ℕ → ℕ)
    → ((low high : ℕ) → low < high → (low ≤ random_range low high) × (random_range low high < high))
    → (p : RetryParams) (retry : ℕ) → p.exponent_base ^ retry ≤ u64_max
    → (p.exponent_base ^ retry) * p.factor ≤ u64_max
    → p.min_wait_time < u64_max
    → (wait : ℕ) × (wait_time_for_retry random_range p retry ≡ ok wait)
      × (p.min_wait_time ≤ wait)
      × (wait < max_u64 p.max_wait_time (p.min_wait_time + 1))
unfolding wait_time_for_retry cluster_retry_wait_upper_ms draw
wait_time_for_retry-bounds random_range within p retry power product least =
    let least_wait = p.min_wait_time in
    let above = least_wait + 1 in
    let capped = min_u64 (max_u64 ((p.exponent_base ^ retry) * p.factor) above) p.max_wait_time in
    let upper = upper_of capped least_wait in
    let (low, high) = upper_of-bounds capped least_wait p.max_wait_time least (ground arith) in
    let drawn = within least_wait upper low in
    (
      random_range least_wait upper,
      rw (in_u64-fits (p.exponent_base ^ retry) power) (
          rw (in_u64-fits ((p.exponent_base ^ retry) * p.factor) product)
            (rw (in_u64-fits above (omega arith)) (rw (lt→ltb least_wait upper low) refl))),
      drawn.0,
      omega (arith, drawn.1, high),
    )

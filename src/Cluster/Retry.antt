-- ===== src/Cluster/Retry.antt =====
-- How long a cluster request waits before it is sent again: `RetryParams` and
-- `cluster_retry_wait_upper_ms` of redis/src/cluster_handling/client.rs. Arithmetic outside `u64` panics,
-- as with overflow checks. The draw of `rand` from a half-open range is a parameter.
pub mod Wait
use redis_rs.Base.{ℕ, suc, ◌+◌, ◌*◌, ◌^◌, ltb, leb, if◌then◌else◌}
use redis_rs.Value.Defs.{Outcome, ok, panicked, ◌>>=◌}
use redis_rs.Cluster.Routing.{u64_max}

pub record RetryParams : Type 0 where
  pub number_of_retries : ℕ
  pub max_wait_time : ℕ
  pub min_wait_time : ℕ
  pub exponent_base : ℕ
  pub factor : ℕ

-- `RetryParams::default`.
abbrev pub default_params : RetryParams
default_params = record {
  number_of_retries = 16;
  max_wait_time = 655360;
  min_wait_time = 1280;
  exponent_base = 2;
  factor = 10;
}

-- A sum, product or power as a `u64`.
unfoldable pub in_u64 : ℕ → Outcome ℕ
in_u64 n = if leb n u64_max then ok n else panicked

-- `u64::max`, `u64::min` and `saturating_add`.
abbrev pub max_u64 : ℕ → ℕ → ℕ
max_u64 a b = if leb a b then b else a

abbrev pub min_u64 : ℕ → ℕ → ℕ
min_u64 a b = if leb a b then a else b

abbrev pub saturating_add : ℕ → ℕ → ℕ
saturating_add a b = min_u64 (a + b) u64_max

unfoldable pub upper_of : ℕ → ℕ → ℕ
upper_of capped min_wait = if leb capped min_wait then saturating_add min_wait 1 else capped

unfoldable pub cluster_retry_wait_upper_ms : ℕ → ℕ → ℕ → Outcome ℕ
unfolding in_u64 upper_of
cluster_retry_wait_upper_ms base_wait min_wait max_wait = do
  above ← in_u64 (min_wait + 1)
  ok (upper_of (min_u64 (max_u64 base_wait above) max_wait) min_wait)

module _ (random_range : ℕ → ℕ → ℕ) where
  -- `random_range`, which panics on an empty range.
  unfoldable pub draw : ℕ → ℕ → Outcome ℕ
  draw low high = if ltb low high then ok (random_range low high) else panicked

  unfoldable pub wait_time_for_retry : RetryParams → ℕ → Outcome ℕ
  unfolding in_u64 cluster_retry_wait_upper_ms draw
  wait_time_for_retry p retry = do
    power ← in_u64 (p.exponent_base ^ retry)
    base_wait ← in_u64 (power * p.factor)
    clamped_wait ← cluster_retry_wait_upper_ms base_wait p.min_wait_time p.max_wait_time
    draw p.min_wait_time clamped_wait

-- ===== src/Examples/Values.antt =====
-- The theorems on conversions at concrete inputs.
use redis_rs.Base.{ℕ, ◌*◌, ◌≤◌, ◌≡◌, refl, List, [], ◌∷◌, Bytes, codes, length, to_decimal, arith}
use redis_rs.Value.Defs.{Value, array, ok}
use redis_rs.Value.Convert.{from_vec}
use redis_rs.Value.Args.{
  make_arg_iter, only_element, num_of_vec, write_map, num_of_map, from_inner_map, unsigned_args,
  unsigned_from, string_args, string_from, FromRedisValue, ToRedisArgs,
}
use redis_rs.Value.RoundTrip.{
  bulks, ReadsBack, none_left, first, no_entries, entry, from_vec-make_arg_iter,
  from_inner_map-write_map, unsigned-ReadsBack, string-ReadsBack,
}
use redis_rs.Resp.Text.{is_utf8}

-- No reply is shown in these tests.
abbrev debug : Value → Bytes
debug v = []

abbrev ports : ToRedisArgs ℕ
ports = unsigned_args to_decimal

abbrev port_of : FromRedisValue ℕ
port_of = unsigned_from debug 65535 (λ d. 0)

abbrev port-ReadsBack : (n : ℕ) → n ≤ 65535 → ReadsBack ports port_of n
port-ReadsBack n h = unsigned-ReadsBack debug to_decimal (λ k. refl) 65535 (λ d. 0) n h

abbrev texts : FromRedisValue Bytes
texts = string_from debug (λ n. []) (λ d. []) (λ s. s)

from_vec-make_arg_iter_example :
    (from_vec debug port_of.from
        (only_element port_of.from)
        (array (bulks (make_arg_iter ports.write (7 ∷ (65535 ∷ [])))))
      ≡ ok (7 ∷ (65535 ∷ [])))
    × (num_of_vec ports (7 ∷ (65535 ∷ [])) ≡ length (make_arg_iter ports.write (7 ∷ (65535 ∷ []))))
from_vec-make_arg_iter_example =
    from_vec-make_arg_iter debug ports.write ports.num_of_args port_of.from (7 ∷ (65535 ∷ [])) (
      first (port-ReadsBack 7 (omega arith)) (first (port-ReadsBack 65535 (omega arith)) none_left))

abbrev ports_by_name : List (Bytes × ℕ)
ports_by_name = (codes "redis", 6379) ∷ []

from_inner_map-write_map_example :
    (args : List Bytes) × (write_map string_args ports ports_by_name ≡ ok args)
    × (length args ≡ 2 * num_of_map string_args ports ports_by_name)
    × (from_inner_map debug texts port_of (array (bulks args)) ≡ ok ports_by_name)
unfolding is_utf8
from_inner_map-write_map_example =
    from_inner_map-write_map debug string_args ports texts port_of ports_by_name (
      entry (string-ReadsBack debug (λ n. []) (λ d. []) (λ s. s) (codes "redis") refl)
        (port-ReadsBack 6379 (omega arith)) no_entries)

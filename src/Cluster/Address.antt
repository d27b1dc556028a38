-- ===== src/Cluster/Address.antt =====
-- The address of a node and its text: `NodeAddress` and `split_node_address` of
-- redis/src/cluster_handling/mod.rs.
pub mod RoundTrip
use redis_rs.Base.{
  ℕ, zero, suc, Bool, true, false, Option, none, some, List, [], ◌∷◌, ◌++◌, Bytes, ◌==◌,
  if◌then◌else◌, parse_unsigned, to_decimal,
}
use redis_rs.Errors.Redis.{u16_max}
use redis_rs.Cluster.SlotMap.{NodeAddress}

-- `Display`.
unfoldable pub display : NodeAddress → Bytes
unfolding to_decimal
display a = a.host ++ b':' ∷ to_decimal a.port

abbrev split_step : ℕ → Bytes → Option (Bytes × Bytes) → Option (Bytes × Bytes)
split_step c rest (some (host, port)) = some (c ∷ host, port)
split_step c rest none = if c == b':' then some ([], rest) else none

-- `str::rsplit_once(':')`.
unfoldable pub rsplit_once : Bytes → Option (Bytes × Bytes)
rsplit_once [] = none
rsplit_once (c ∷ cs) = split_step c cs (rsplit_once cs)

-- `str::trim_start_matches('[')`.
unfoldable pub trim_start_matches : Bytes → Bytes
trim_start_matches [] = []
trim_start_matches (c ∷ cs) = let rest = trim_start_matches cs in if c == b'[' then rest else c ∷ cs

abbrev trim_step : ℕ → Bytes → Bytes
trim_step c [] = if c == b']' then [] else c ∷ []
trim_step c (d ∷ ds) = c ∷ d ∷ ds

-- `str::trim_end_matches(']')`.
unfoldable pub trim_end_matches : Bytes → Bytes
trim_end_matches [] = []
trim_end_matches (c ∷ cs) = trim_step c (trim_end_matches cs)

-- A host that is not empty, and its port.
unfoldable pub address_of_parts : Bytes → Option ℕ → Option NodeAddress
address_of_parts [] port = none
address_of_parts (c ∷ cs) none = none
address_of_parts (c ∷ cs) (some port) = some (record { host = c ∷ cs; port = port })

unfoldable pub address_of_split : Option (Bytes × Bytes) → Option NodeAddress
unfolding trim_start_matches trim_end_matches address_of_parts
address_of_split none = none
address_of_split (some (host, port)) =
    address_of_parts (trim_end_matches (trim_start_matches host)) (parse_unsigned u16_max port)

-- `NodeAddress::try_from` with `split_node_address`, whose only error says that the text is invalid.
unfoldable pub try_from : Bytes → Option NodeAddress
unfolding rsplit_once address_of_split
try_from text = address_of_split (rsplit_once text)

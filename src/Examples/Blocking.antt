-- ===== src/Examples/Blocking.antt =====
-- A request on a blocking connection to a cluster, at a concrete network: the first node that is asked
-- sends the request on to another one, which answers.
use redis_rs.Base.{ℕ, zero, suc, ◌-◌, ◌≤◌, true, none, [], ◌∷◌, Bytes, codes, arith}
use redis_rs.Errors.Server
use redis_rs.Errors.Redis.{server}
use redis_rs.Value.Defs.{okay, Outcome, ok, err}
use redis_rs.Cluster.Slot.{master}
use redis_rs.Cluster.SlotMap.{NodeAddress}
use redis_rs.Cluster.MultiShard.{by_address}
use redis_rs.Cluster.Retry.{wait_time_for_retry}
use redis_rs.Cluster.Request.Redirection.{redirection}
use redis_rs.Cluster.Blocking.Connect.{Network, Client, Settings}
use redis_rs.Cluster.Blocking.Loop.{request_loop}
use redis_rs.Cluster.Blocking.Calm.{Calm, answered, failed, calm, no_more, IsCalm}
use redis_rs.Cluster.Blocking.Ends.{Returns, request_loop-ends}

abbrev first_node : NodeAddress
first_node = record { host = codes "a"; port = 7000 }

abbrev next_node : NodeAddress
next_node = record { host = codes "b"; port = 7001 }

abbrev reply_of : ℕ → Outcome Bytes
reply_of zero = err (server (redirection Server.ask 3999 next_node))
reply_of (suc n) = ok (codes "OK")

-- A connection is the port of its node from 7000, and the world the number of what was sent.
abbrev network : Network ℕ ℕ Bytes
network = record {
  connect = λ addr w. (ok (addr.port - 7000), w);
  check_connection = λ conn w. (true, w);
  send = λ conn w. (reply_of conn, suc w);
  send_asking = λ conn w. (ok okay, suc w);
  create_new_slots = λ w. (ok [], w);
  sleep = λ wait w. w;
  choose = λ entries. none;
  choose_replica = λ replicas. replicas.first;
  new_random_primary = record { slot = 0; slot_addr = master };
  random_range = λ low high. low;
  sort_and_dedup = λ addrs. addrs;
}

abbrev settings : Settings
settings = record {
  initial_nodes = ok first_node ∷ [];
  auto_reconnect = true;
  retry_params = record {
    number_of_retries = 2;
    max_wait_time = 10;
    min_wait_time = 5;
    exponent_base = 1;
    factor = 1;
  };
  routing_strategy = none;
}

abbrev client : Client ℕ ℕ
client = record { world = 0; connections = []; slots = [] }

reply_of-Calm : (conn : ℕ) → Calm (reply_of conn)
reply_of-Calm zero = failed
reply_of-Calm (suc n) = answered

network-IsCalm : IsCalm network
network-IsCalm = record {
  connect = λ addr w. answered;
  send = λ conn w. reply_of-Calm conn;
  send_asking = λ conn w. answered;
  create_new_slots = λ w. answered;
}

waits-Calm :
    (n : ℕ) → n ≤ 2 → Calm (wait_time_for_retry network.random_range settings.retry_params n)
unfolding wait_time_for_retry
waits-Calm zero h = answered
waits-Calm (suc zero) h = answered
waits-Calm (suc (suc zero)) h = answered
waits-Calm (suc (suc (suc n))) h = ground arith

request_loop-ends_example :
    Returns (request_loop network settings 3 (by_address (codes "a") 7000) 0 none client)
request_loop-ends_example =
    request_loop-ends network settings network-IsCalm waits-Calm (calm answered no_more)
      (by_address (codes "a") 7000) client

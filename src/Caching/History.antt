-- ===== src/Caching/History.antt =====
-- What was done to the sharded cache, the newest first, and what was then last stored.
use redis_rs.Base.{ℕ, Option, none, some, List, [], ◌∷◌, Bytes, bytes_eq, ◌==◌, if◌then◌else◌}
use redis_rs.Value.Defs.{Value}
use redis_rs.Caching.Lru.{LruCache}
use redis_rs.Caching.Shards.{ShardedLru, get, insert, invalidate}

-- The operations with their arguments: a read has the time at which it is made.
pub data Event : Type 0 where
  inserted : Bytes → Bytes → Value → ℕ → ℕ → Event
  invalidated : Bytes → Event
  read : Bytes → Bytes → ℕ → ℕ → Event

-- The value last stored for a key and a command in an epoch, unless the key was since invalidated or
-- stored in another epoch.
unfoldable pub last_value : Bytes → Bytes → ℕ → List Event → Option Value
last_value key cmd epoch [] = none
last_value key cmd epoch (inserted k c v expire e ∷ h) =
    let older = last_value key cmd epoch h in
    if bytes_eq k key
    then if e == epoch then if bytes_eq c cmd then some v else older else none
    else older
last_value key cmd epoch (invalidated k ∷ h) =
    let older = last_value key cmd epoch h in if bytes_eq k key then none else older
last_value key cmd epoch (read k c e now ∷ h) = last_value key cmd epoch h

-- Until when the key was last stored, unless it was since invalidated.
unfoldable pub last_deadline : Bytes → List Event → Option ℕ
last_deadline key [] = none
last_deadline key (inserted k c v expire e ∷ h) =
    let older = last_deadline key h in if bytes_eq k key then some expire else older
last_deadline key (invalidated k ∷ h) =
    let older = last_deadline key h in if bytes_eq k key then none else older
last_deadline key (read k c e now ∷ h) = last_deadline key h

module _ {L : Type 0} (lru : LruCache L) (hash : Bytes → ℕ) where
  unfoldable pub step : Event → ShardedLru L → ShardedLru L
  unfolding insert invalidate get
  step (inserted k c v expire e) s = insert lru hash k c v expire e s
  step (invalidated k) s = invalidate lru hash k s
  step (read k c e now) s = (get lru hash k c e now s).1

  unfoldable pub after : ShardedLru L → List Event → ShardedLru L
  unfolding step
  after s [] = s
  after s (e ∷ older) = step e (after s older)

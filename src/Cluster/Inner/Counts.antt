-- ===== src/Cluster/Inner/Counts.antt =====
-- How many requests of a caller wait for an answer, and how many answers it has.
use redis_rs.Base.{
  ℕ, ◌+◌, ◌≡◌, refl, Option, none, some, List, [], ◌∷◌, ◌++◌, if◌then◌else◌, ◌==◌, arith,
  Option-cases, inl, inr,
}
use redis_rs.Cluster.Request.{
  Result, ResultExpectation, external, internal, PendingRequest, Retry, send,
}
use redis_rs.Cluster.Request.Settled.{request_of}
use redis_rs.Cluster.Inner.{Request, ClusterConnInner, all_requests, emptied}

-- How many requests wait for an answer to caller `c`.
abbrev pub of_sender : ℕ → ResultExpectation → ℕ
of_sender c (external caller) = if caller == c then 1 else 0
of_sender c internal = 0

module _ {C : Type 0} (c : ℕ) where
  abbrev pub of_requests : List (PendingRequest C) → ℕ
  of_requests [] = 0
  of_requests (r ∷ rs) = of_sender c r.sender + of_requests rs

  abbrev pub of_option : Option (PendingRequest C) → ℕ
  of_option none = 0
  of_option (some r) = of_sender c r.sender

  abbrev pub of_running : List (Request C) → ℕ
  of_running [] = 0
  of_running (r ∷ rs) = of_option r.request + of_running rs

  abbrev pub of_retry : Option (Retry C) → ℕ
  of_retry none = 0
  of_retry (some r) = of_sender c (request_of r).sender

  -- How many requests of caller `c` wait for an answer.
  unfoldable pub waiting : ClusterConnInner C → ℕ
  waiting s = of_requests s.pending_requests + of_running s.in_flight_requests

-- How many answers were sent to caller `c`.
unfoldable pub answers : ℕ → List (ℕ × Result) → ℕ
answers c [] = 0
answers c ((caller, r) ∷ sent) = (if caller == c then 1 else 0) + answers c sent

pub answers-append :
    (c : ℕ) (xs ys : List (ℕ × Result)) → answers c (xs ++ ys) ≡ answers c xs + answers c ys
unfolding answers
answers-append c [] ys = omega arith
answers-append c (x ∷ xs) ys = omega (arith, answers-append c xs ys)

pub answers-send :
    (c : ℕ) (sender : ResultExpectation) (r : Result)
    → answers c (send sender r) ≡ of_sender c sender
unfolding answers send
answers-send c (external caller) r = omega arith
answers-send c internal r = refl

module _ {C : Type 0} (c : ℕ) where
  pub of_requests-append :
      (xs ys : List (PendingRequest C))
      → of_requests c (xs ++ ys) ≡ of_requests c xs + of_requests c ys
  of_requests-append [] ys = omega arith
  of_requests-append (x ∷ xs) ys = omega (arith, of_requests-append xs ys)

  pub of_requests-all_requests :
      (rs : List (Request C)) → of_requests c (all_requests rs) ≡ of_running c rs
  unfolding all_requests
  of_requests-all_requests [] = refl
  of_requests-all_requests (r ∷ rs) = elim (Option-cases r.request) [
    | inl closed ↦ rw closed (omega (arith, of_requests-all_requests rs))
    | inr (request, listens) ↦ rw listens (omega (arith, of_requests-all_requests rs))
  ]

  pub of_running-emptied : (rs : List (Request C)) → of_running c (emptied rs) ≡ 0
  unfolding emptied
  of_running-emptied [] = refl
  of_running-emptied (r ∷ rs) = omega (arith, of_running-emptied rs)

-- ===== src/Cluster/Pipeline/Verdict.antt =====
-- What the fold over the routes of a pipeline's commands answers.
use redis_rs.Base.{
  ℕ, ◌≡◌, ◌≢◌, refl, sym, ◌∙◌, ◌⊎◌, inl, inr, true, false, Option, none, some, List, [], ◌∷◌, ◌==◌,
  Bool-cases, ==_iff, arith,
}
use mathlib.Core.List.{Memᴰ}
use redis_rs.Value.Defs.{Outcome, ok, err, panicked}
use redis_rs.Cluster.Slot.{Route, master, addr_eq}
use redis_rs.Cluster.Pipeline.{choose_route, fold_routes}

-- Every route leads to the slot.
abbrev pub AllSlot : ℕ → List (Option Route) → Type 0
AllSlot n [] = Unit
AllSlot n (none ∷ rs) = AllSlot n rs
AllSlot n (some r ∷ rs) = (r.slot ≡ n) × AllSlot n rs

-- No route leads to a primary.
abbrev pub NoMaster : List (Option Route) → Type 0
NoMaster [] = Unit
NoMaster (none ∷ rs) = NoMaster rs
NoMaster (some r ∷ rs) = (addr_eq r.slot_addr master ≡ false) × NoMaster rs

abbrev pub NoRoute : List (Option Route) → Type 0
NoRoute [] = Unit
NoRoute (none ∷ rs) = NoRoute rs
NoRoute (some r ∷ rs) = ⊥

-- What an answer says of the routes: none of them is one; all lead to the slot of the chosen one, which
-- is one of them and leads to a primary if any does; or two lead to different slots.
abbrev pub Verdict : List (Option Route) → Outcome (Option Route) → Type 0
Verdict rs (ok none) = NoRoute rs
Verdict rs (ok (some r)) =
    AllSlot r.slot rs × Memᴰ (some r) rs × ((addr_eq r.slot_addr master ≡ true) ⊎ NoMaster rs)
Verdict rs (err e) =
    (a : Route) × (b : Route) × Memᴰ (some a) rs × Memᴰ (some b) rs × (a.slot ≢ b.slot)
Verdict rs panicked = ⊥

Verdict-from :
    (xs ys : List (Option Route)) (answer : Outcome (Option Route))
    → ((n : ℕ) → AllSlot n xs → AllSlot n ys)
    → (NoMaster xs → NoMaster ys)
    → (NoRoute xs → NoRoute ys)
    → ((r : Route) → Memᴰ (some r) xs → Memᴰ (some r) ys)
    → Verdict xs answer
    → Verdict ys answer
Verdict-from xs ys (ok none) slots masters routes within v = routes v
Verdict-from xs ys (ok (some r)) slots masters routes within v =
    (slots r.slot v.0, within r v.1, elim v.2 [ inl m ↦ inl m | inr m ↦ inr (masters m) ])
Verdict-from xs ys (err e) slots masters routes within (a, b, m, n, d) =
    (a, b, within a m, within b n, d)
Verdict-from xs ys panicked slots masters routes within v = absurd v

skip_second : {A : Type 0} (a b : A) (xs : List A) (o : A) → Memᴰ o (a ∷ xs) → Memᴰ o (a ∷ b ∷ xs)
skip_second a b xs o (Memᴰ.head e) = Memᴰ.head e
skip_second a b xs o (Memᴰ.tail m) = Memᴰ.tail (Memᴰ.tail m)

Verdict-fold_routes :
    (chosen : Option Route) (rs : List (Option Route))
    → Verdict (chosen ∷ rs) (fold_routes chosen rs)
unfolding fold_routes choose_route
Verdict-fold_routes none [] = tt
Verdict-fold_routes (some a) [] = (
  (refl, tt),
  Memᴰ.head refl,
  elim (Bool-cases (addr_eq a.slot_addr master)) [ inl m ↦ inl m | inr m ↦ inr (m, tt) ],
)
Verdict-fold_routes none (next ∷ rs) =
    Verdict-from (next ∷ rs) (none ∷ next ∷ rs) (fold_routes next rs) (λ n h. h) (λ h. h) (λ h. h)
      (λ r. Memᴰ.tail) (Verdict-fold_routes next rs)
Verdict-fold_routes (some a) (none ∷ rs) =
    Verdict-from (some a ∷ rs) (some a ∷ none ∷ rs) (fold_routes (some a) rs) (λ n h. h) (λ h. h)
      (λ h. h) (λ r. skip_second (some a) none rs (some r)) (Verdict-fold_routes (some a) rs)
Verdict-fold_routes (some a) (some b ∷ rs) = elim (Bool-cases (a.slot == b.slot)) [
  | inr apart ↦ rw (apart, Verdict) (a, b, Memᴰ.head refl, Memᴰ.tail (Memᴰ.head refl), ground arith)
  | inl same ↦
      let e : a.slot ≡ b.slot = (==_iff a.slot b.slot).0 same in
      elim (Bool-cases (addr_eq a.slot_addr master)) [
        | inl m ↦
            rw (same, m)
              (Verdict-from (some a ∷ rs) (some a ∷ some b ∷ rs) (fold_routes (some a) rs)
                (λ n h. (h.0, (sym e ∙ h.0, h.1))) (λ h. cc) (λ h. h)
                (λ r. skip_second (some a) (some b) rs (some r)) (Verdict-fold_routes (some a) rs))
        | inr m ↦
            rw (same, m)
              (Verdict-from (some b ∷ rs) (some a ∷ some b ∷ rs) (fold_routes (some b) rs)
                (λ n h. (e ∙ h.0, h)) (λ h. (m, h)) (λ h. h) (λ r. Memᴰ.tail)
                (Verdict-fold_routes (some b) rs))
      ]
]

-- The verdict without the route that the fold begins with.
pub Verdict-from_none : (rs : List (Option Route)) → Verdict rs (fold_routes none rs)
Verdict-from_none rs =
    Verdict-from (none ∷ rs) rs (fold_routes none rs) (λ n h. h) (λ h. h) (λ h. h) without_none
      (Verdict-fold_routes none rs)
  where
    without_none : (r : Route) → Memᴰ (some r) (none ∷ rs) → Memᴰ (some r) rs
    without_none r (Memᴰ.head e) = cc
    without_none r (Memᴰ.tail m) = m

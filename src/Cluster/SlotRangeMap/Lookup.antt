-- ===== src/Cluster/SlotRangeMap/Lookup.antt =====
-- Lookups in a `SlotRangeMap`, and its order.
use redis_rs.Base.{
  ℕ, ◌≤◌, ◌<◌, ◌≡◌, ◌⊎◌, inl, inr, ◌&&◌, some, [], ◌∷◌, leb, ltb, ◌==◌, if◌then◌else◌, Bool-cases,
  arith,
}
use redis_rs.Cluster.SlotRangeMap.{SlotRangeMap, insert, get}

module _ {ℓ} {V : Type ℓ} where
  -- Every range satisfies `P`.
  abbrev pub EachRange : (ℕ → ℕ → Type 0) → SlotRangeMap V → Type 0
  EachRange P [] = Unit
  EachRange P (e ∷ m) = P e.first e.last × EachRange P m

  -- The keys ascend strictly: the order in which `iter` and `values` go.
  abbrev pub IsSorted : SlotRangeMap V → Type 0
  IsSorted [] = Unit
  IsSorted (e ∷ m) = EachRange (λ f l. e.last < l) m × IsSorted m

-- Ranges that share no slot.
abbrev pub Apart : ℕ → ℕ → ℕ → ℕ → Type 0
Apart first last f l = (last < f) ⊎ (l < first)

module _ {ℓ} {V : Type ℓ} where
  pub insert-EachRange :
      (P : ℕ → ℕ → Type 0) (first last : ℕ) (value : V) (m : SlotRangeMap V)
      → P first last
      → EachRange P m
      → EachRange P (insert first last value m)
  unfolding insert
  insert-EachRange P first last value [] p h = (p, tt)
  insert-EachRange P first last value (e ∷ m) p h = elim (Bool-cases (ltb last e.last)) [
    | inl before ↦ rw before (p, (h.0, h.1))
    | inr notbefore ↦ elim (Bool-cases (last == e.last)) [
      | inl same ↦ rw (notbefore, same) (p, h.1)
      | inr after ↦ rw (notbefore, after) (h.0, insert-EachRange P first last value m p h.1)
    ]
  ]

  EachRange-above :
      (a b : ℕ) (m : SlotRangeMap V)
      → a ≤ b
      → EachRange (λ f l. b < l) m
      → EachRange (λ f l. a < l) m
  EachRange-above a b [] h k = tt
  EachRange-above a b (e ∷ m) h k = (omega arith, EachRange-above a b m h k.1)

  -- An insertion keeps the keys in order, whatever stands at its key.
  pub insert-IsSorted :
      (first last : ℕ) (value : V) (m : SlotRangeMap V)
      → IsSorted m
      → IsSorted (insert first last value m)
  unfolding insert
  insert-IsSorted first last value [] s = (tt, tt)
  insert-IsSorted first last value (e ∷ m) s = elim (Bool-cases (ltb last e.last)) [
    | inl before ↦ rw before ((ground arith, EachRange-above last e.last m (ground arith) s.0), s)
    | inr notbefore ↦ elim (Bool-cases (last == e.last)) [
      | inl same ↦ rw (notbefore, same) (EachRange-above last e.last m (ground arith) s.0, s.1)
      | inr after ↦
          rw (notbefore, after)
            (
              insert-EachRange (λ f l. e.last < l) first last value m (ground arith) s.0,
              insert-IsSorted first last value m s.1,
            )
    ]
  ]

  -- A range that shares no slot with those of the map is found at its own slots, and changes no other
  -- lookup.
  pub get-insert :
      (first last slot : ℕ) (value : V) (m : SlotRangeMap V)
      → first ≤ last
      → EachRange (λ f l. f ≤ l) m
      → EachRange (Apart first last) m
      → get slot (insert first last value m)
        ≡ (if leb first slot && leb slot last then some value else get slot m)
  unfolding get insert
  get-insert first last slot value [] w h a = ground arith
  get-insert first last slot value (e ∷ m) w h a =
      ground (arith, get-insert first last slot value m w h.1 a.1)

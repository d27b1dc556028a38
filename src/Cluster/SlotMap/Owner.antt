-- ===== src/Cluster/SlotMap/Owner.antt =====
-- The map built from the ranges of a `CLUSTER SLOTS` reply against a search of the ranges.
use redis_rs.Base.{
  ℕ, ◌≤◌, ◌≡◌, refl, inl, inr, Bool, true, ◌&&◌, Option, none, some, List, [], ◌∷◌, leb,
  if◌then◌else◌, Bool-cases, arith, ◌∙◌,
}
use redis_rs.Cluster.SlotRangeMap.{insert, get}
use redis_rs.Cluster.SlotRangeMap.Lookup.{EachRange, Apart, get-insert, insert-EachRange}
use redis_rs.Cluster.SlotMap.{SlotRange, SlotAddrs, SlotMap, from_slot, fill_slots, from_slots}

abbrev pub holds : ℕ → SlotRange → Bool
holds slot r = leb r.start slot && leb slot r.end_slot

-- A linear search of the ranges.
unfoldable pub owner : ℕ → List SlotRange → Option SlotAddrs
unfolding from_slot
owner slot [] = none
owner slot (r ∷ rs) = if holds slot r then some (from_slot r) else owner slot rs

abbrev pub ApartFrom : SlotRange → List SlotRange → Type 0
ApartFrom r [] = Unit
ApartFrom r (s ∷ rs) = Apart r.start r.end_slot s.start s.end_slot × ApartFrom r rs

-- Every range starts no later than it ends, and no two share a slot.
abbrev pub IsPartition : List SlotRange → Type 0
IsPartition [] = Unit
IsPartition (r ∷ rs) = (r.start ≤ r.end_slot) × ApartFrom r rs × IsPartition rs

-- Of two answers, the first that is one.
abbrev or_else : Option SlotAddrs → Option SlotAddrs → Option SlotAddrs
or_else none b = b
or_else (some a) b = some a

owner-ApartFrom :
    (slot : ℕ) (r : SlotRange) (rs : List SlotRange)
    → ApartFrom r rs
    → holds slot r ≡ true
    → owner slot rs ≡ none
unfolding owner
owner-ApartFrom slot r [] h k = refl
owner-ApartFrom slot r (s ∷ rs) h k = ground (arith, owner-ApartFrom slot r rs h.1 k)

-- The ranges still to come share no slot with those of the map.
abbrev EachApart : List SlotRange → SlotMap → Type 0
EachApart [] m = Unit
EachApart (r ∷ rs) m = EachRange (Apart r.start r.end_slot) m × EachApart rs m

EachApart-insert :
    (r : SlotRange) (rs : List SlotRange) (m : SlotMap)
    → ApartFrom r rs
    → EachApart rs m
    → EachApart rs (insert r.start r.end_slot (from_slot r) m)
EachApart-insert r [] m h k = tt
EachApart-insert r (s ∷ rs) m h k = (
  insert-EachRange (Apart s.start s.end_slot) r.start r.end_slot (from_slot r) m
      (elim h.0 [ inl a ↦ inr a | inr b ↦ inl b ]) k.0,
  EachApart-insert r rs m h.1 k.1,
)

get-fill_slots :
    (slot : ℕ) (rs : List SlotRange) (m : SlotMap)
    → IsPartition rs
    → EachRange (λ f l. f ≤ l) m
    → EachApart rs m
    → get slot (fill_slots m rs) ≡ or_else (owner slot rs) (get slot m)
unfolding fill_slots owner
get-fill_slots slot [] m p w a = refl
get-fill_slots slot (r ∷ rs) m p w a =
    let m' : SlotMap = insert r.start r.end_slot (from_slot r) m in
    let later : get slot (fill_slots m' rs) ≡ or_else (owner slot rs) (get slot m') =
      get-fill_slots slot rs m' p.2
        (insert-EachRange (λ f l. f ≤ l) r.start r.end_slot (from_slot r) m p.0 w)
        (EachApart-insert r rs m p.1 a.1) in
    let here = get-insert r.start r.end_slot slot (from_slot r) m p.0 w a.0 in
    elim (Bool-cases (holds slot r)) [
      | inl inside ↦ rw (later, here, inside, owner-ApartFrom slot r rs p.1 inside) refl
      | inr outside ↦ rw (later, here, outside) refl
    ]

EachApart-empty : (rs : List SlotRange) → EachApart rs []
EachApart-empty [] = tt
EachApart-empty (r ∷ rs) = (tt, EachApart-empty rs)

or_none : (o : Option SlotAddrs) → or_else o none ≡ o
or_none none = refl
or_none (some a) = refl

-- The map built from ranges that share no slot finds, for every slot, the addresses of the range that
-- holds it, and nothing for a slot of no range, in whatever order the server lists the ranges.
pub get-from_slots :
    (slot : ℕ) (rs : List SlotRange) → IsPartition rs → get slot (from_slots rs) ≡ owner slot rs
unfolding from_slots get
get-from_slots slot rs p =
    let here = get-fill_slots slot rs [] p tt (EachApart-empty rs) in here ∙ or_none (owner slot rs)

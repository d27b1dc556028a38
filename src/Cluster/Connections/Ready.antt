-- ===== src/Cluster/Connections/Ready.antt =====
-- What a connection to a node is, and which nodes a route permits, apart from how the code finds them.
use redis_rs.Base.{
  ◌≡◌, ◌≢◌, refl, sym, ap, ◌∙◌, subst, true, false, none, some, [], ◌∷◌, bytes_eq_refl, ==_refl,
  Bool-cases, Option-cases, inl, inr, if◌then◌else◌,
}
use mathlib.Core.List.{Memᴰ}
use redis_rs.Cluster.SlotMap.{NodeAddress, address_eq}
use redis_rs.Cluster.SlotMap.Snapshot.{address_eq_sound}
use redis_rs.Cluster.Connections.{
  ConnectionMap, ConnState, connected, reconnecting, connecting, connected_conn, lookup,
  get_connected, all_connected,
}

some_inj : {A : Type 0} {x y : A} → some x ≡ some y → x ≡ y
some_inj e = cc

some-none : {A : Type 0} {x : A} → some x ≡ none → ⊥
some-none e = cc

true-false : true ≡ false → ⊥
true-false e = cc

address_eq_refl : (a : NodeAddress) → address_eq a a ≡ true
unfolding address_eq
address_eq_refl a = rw (bytes_eq_refl a.host, ==_refl a.port) refl

address_eq-other : (a b : NodeAddress) → a ≢ b → address_eq a b ≡ false
address_eq-other a b h = elim (Bool-cases (address_eq a b)) [
  | inl same ↦ absurd (h (address_eq_sound a b same))
  | inr other ↦ other
]

differ : (x y : NodeAddress) → x ≡ y → address_eq x y ≡ false → ⊥
differ x y e f = true-false (sym (subst (λ z. address_eq x z ≡ true) e (address_eq_refl x)) ∙ f)

module _ {C : Type 0} where
  -- The state that stands first under an address.
  pub data Entry (a : NodeAddress) (state : ConnState C) : ConnectionMap C → Type 0 where
    here : {entries : ConnectionMap C} → Entry a state ((a, state) ∷ entries)
    there :
        {b : NodeAddress} {other : ConnState C} {entries : ConnectionMap C}
        → a ≢ b
        → Entry a state entries
        → Entry a state ((b, other) ∷ entries)

  -- No connection to the node is ready.
  abbrev pub Disconnected : NodeAddress → ConnectionMap C → Type 0
  Disconnected a entries = (conn : C) → Entry a (connected conn) entries → ⊥

  lookup-Entry :
      (a : NodeAddress) (state : ConnState C) (entries : ConnectionMap C)
      → Entry a state entries
      → lookup a entries ≡ some state
  unfolding lookup
  lookup-Entry a state entries (here {entries = rest}) = rw (address_eq_refl a) refl
  lookup-Entry a state entries (there {b = b} {other = other} {entries = rest} h e) =
      rw (address_eq-other a b h) (lookup-Entry a state rest e)

  Entry-lookup :
      (a : NodeAddress) (state : ConnState C) (entries : ConnectionMap C)
      → lookup a entries ≡ some state
      → Entry a state entries
  unfolding lookup
  Entry-lookup a state [] h = cc
  Entry-lookup a state ((b, other) ∷ entries) h = elim (Bool-cases (address_eq a b)) [
    | inl same ↦
        let e : other ≡ state =
          some_inj (sym (ap (λ t. if t then some other else lookup a entries) same) ∙ h) in
        subst (λ x. Entry a state ((x, other) ∷ entries)) (address_eq_sound a b same)
          (subst (λ t. Entry a state ((a, t) ∷ entries)) (sym e) here)
    | inr apart ↦
        there (λ e. absurd (differ a b e apart))
          (Entry-lookup a state entries
            (sym (ap (λ t. if t then some other else lookup a entries) apart) ∙ h))
  ]

  connected_conn-some :
      (state : ConnState C) (conn : C) → connected_conn state ≡ some conn → state ≡ connected conn
  unfolding connected_conn
  connected_conn-some (connected c) conn e = ap connected (some_inj e)
  connected_conn-some (reconnecting c) conn e = cc
  connected_conn-some connecting conn e = cc

  pub get_connected-Entry :
      (a : NodeAddress) (conn : C) (entries : ConnectionMap C)
      → get_connected a entries ≡ some conn
      → Entry a (connected conn) entries
  unfolding get_connected
  get_connected-Entry a conn entries h = elim (Option-cases (lookup a entries)) [
    | inl absent ↦ cc (rw (absent, get_connected) at h)
    | inr (state, found) ↦
        Entry-lookup a (connected conn) entries
          (found ∙ ap some (connected_conn-some state conn (rw (found, get_connected) at h)))
  ]

  pub get_connected-Disconnected :
      (a : NodeAddress) (entries : ConnectionMap C)
      → get_connected a entries ≡ none
      → Disconnected a entries
  unfolding get_connected connected_conn
  get_connected-Disconnected a entries h conn e =
      some-none (rw (lookup-Entry a (connected conn) entries e, get_connected) at h)

  pub all_connected-Mem :
      (found : NodeAddress × C) (entries : ConnectionMap C)
      → Memᴰ found (all_connected entries)
      → Memᴰ (found.0, connected found.1) entries
  unfolding all_connected connected_conn
  all_connected-Mem found [] m = elim m [ ]
  all_connected-Mem found ((a, connected conn) ∷ entries) (Memᴰ.head e) =
      Memᴰ.head (ap (λ f. (f.0, connected f.1)) e)
  all_connected-Mem found ((a, connected conn) ∷ entries) (Memᴰ.tail m) =
      Memᴰ.tail (all_connected-Mem found entries m)
  all_connected-Mem found ((a, reconnecting conn) ∷ entries) m =
      Memᴰ.tail (all_connected-Mem found entries m)
  all_connected-Mem found ((a, connecting) ∷ entries) m =
      Memᴰ.tail (all_connected-Mem found entries m)

  pub Mem-all_connected :
      (a : NodeAddress) (conn : C) (entries : ConnectionMap C)
      → Memᴰ (a, connected conn) entries
      → Memᴰ (a, conn) (all_connected entries)
  unfolding all_connected connected_conn
  Mem-all_connected a conn [] m = elim m [ ]
  Mem-all_connected a conn ((b, connected c) ∷ entries) (Memᴰ.head e) = Memᴰ.head cc
  Mem-all_connected a conn ((b, connected c) ∷ entries) (Memᴰ.tail m) =
      Memᴰ.tail (Mem-all_connected a conn entries m)
  Mem-all_connected a conn ((b, reconnecting c) ∷ entries) (Memᴰ.head e) = absurd cc
  Mem-all_connected a conn ((b, reconnecting c) ∷ entries) (Memᴰ.tail m) =
      Mem-all_connected a conn entries m
  Mem-all_connected a conn ((b, connecting) ∷ entries) (Memᴰ.head e) = absurd cc
  Mem-all_connected a conn ((b, connecting) ∷ entries) (Memᴰ.tail m) =
      Mem-all_connected a conn entries m

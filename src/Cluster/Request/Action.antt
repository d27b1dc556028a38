-- ===== src/Cluster/Request/Action.antt =====
-- What the connection does when several requests have ended at once: `PollFlushAction::change_state`
-- of redis/src/cluster_handling/async_connection/mod.rs, as `poll_in_flight` folds it.
use redis_rs.Base.{
  ◌≡◌, refl, sym, ap, ◌∙◌, Bool, true, false, ◌||◌, List, [], ◌∷◌, ◌++◌, append_assoc, append-nil,
  if◌then◌else◌, arith, Bool-cases, inl, inr,
}
use redis_rs.Cluster.SlotMap.{NodeAddress}
use redis_rs.Cluster.Request.{
  PollFlushAction, nothing, rebuild_slots, reconnect_to, reconnect_initial,
}

unfoldable pub change_state : PollFlushAction → PollFlushAction → PollFlushAction
change_state nothing next = next
change_state state nothing = state
change_state reconnect_initial next = reconnect_initial
change_state state reconnect_initial = reconnect_initial
change_state rebuild_slots next = rebuild_slots
change_state state rebuild_slots = rebuild_slots
change_state (reconnect_to addrs) (reconnect_to new_addrs) = reconnect_to (addrs ++ new_addrs)

-- The loop of `poll_in_flight` over the actions of the requests that have ended.
unfoldable pub fold_actions : PollFlushAction → List PollFlushAction → PollFlushAction
unfolding change_state
fold_actions state [] = state
fold_actions state (next ∷ actions) = fold_actions (change_state state next) actions

-- An action that one of the others makes unnecessary is given up: whether all connections are to be
-- made anew, else whether the slots are to be read anew, else which nodes are to be connected anew.
abbrev is_initial : PollFlushAction → Bool
is_initial reconnect_initial = true
is_initial _ = false

abbrev is_rebuild : PollFlushAction → Bool
is_rebuild rebuild_slots = true
is_rebuild _ = false

abbrev addresses_of : PollFlushAction → List NodeAddress
addresses_of (reconnect_to addrs) = addrs
addresses_of _ = []

abbrev any : (PollFlushAction → Bool) → List PollFlushAction → Bool
any test [] = false
any test (a ∷ actions) = test a || any test actions

abbrev all_addresses : List PollFlushAction → List NodeAddress
all_addresses [] = []
all_addresses (a ∷ actions) = addresses_of a ++ all_addresses actions

abbrev is_nothing : PollFlushAction → Bool
is_nothing nothing = true
is_nothing _ = false

abbrev all_nothing : List PollFlushAction → Bool
all_nothing [] = true
all_nothing (nothing ∷ actions) = all_nothing actions
all_nothing (a ∷ actions) = false

abbrev pub strongest : List PollFlushAction → PollFlushAction
strongest actions =
    if any is_initial actions
    then reconnect_initial
    else if any is_rebuild actions
    then rebuild_slots
    else if all_nothing actions
    then nothing
    else reconnect_to (all_addresses actions)

change_state-initial : (a : PollFlushAction) → change_state reconnect_initial a ≡ reconnect_initial
unfolding change_state
change_state-initial nothing = refl
change_state-initial rebuild_slots = refl
change_state-initial (reconnect_to addrs) = refl
change_state-initial reconnect_initial = refl

change_state-nothing : (a : PollFlushAction) → change_state a nothing ≡ a
unfolding change_state
change_state-nothing a = ground arith

change_state_assoc :
    (a b c : PollFlushAction)
    → change_state a (change_state b c) ≡ change_state (change_state a b) c
unfolding change_state
change_state_assoc nothing b c = refl
change_state_assoc rebuild_slots nothing c = refl
change_state_assoc (reconnect_to as') nothing c = refl
change_state_assoc reconnect_initial b c =
    change_state-initial (change_state b c)
    ∙ sym (ap (λ s. change_state s c) (change_state-initial b) ∙ change_state-initial c)
change_state_assoc (reconnect_to x) (reconnect_to y) (reconnect_to z) =
    ap reconnect_to (sym (append_assoc x y z))
change_state_assoc a b c = ground arith

all_nothing-addresses :
    (actions : List PollFlushAction) → all_nothing actions ≡ true → all_addresses actions ≡ []
all_nothing-addresses [] h = refl
all_nothing-addresses (nothing ∷ actions) h = all_nothing-addresses actions h
all_nothing-addresses (rebuild_slots ∷ actions) h = cc
all_nothing-addresses (reconnect_initial ∷ actions) h = cc
all_nothing-addresses (reconnect_to addrs ∷ actions) h = cc

change_state-strongest :
    (a : PollFlushAction) (actions : List PollFlushAction)
    → change_state a (strongest actions) ≡ strongest (a ∷ actions)
unfolding change_state
change_state-strongest nothing actions = refl
change_state-strongest reconnect_initial actions = change_state-initial (strongest actions)
change_state-strongest rebuild_slots actions = elim (Bool-cases (any is_initial actions)) [
  | inl initial ↦ rw initial refl
  | inr other ↦ elim (Bool-cases (any is_rebuild actions)) [
    | inl rebuild ↦ rw (other, rebuild) refl
    | inr no_rebuild ↦ elim (Bool-cases (all_nothing actions)) [
      | inl idle ↦ rw (other, no_rebuild, idle) refl
      | inr busy ↦ rw (other, no_rebuild, busy) refl
    ]
  ]
]
change_state-strongest (reconnect_to addrs) actions = elim (Bool-cases (any is_initial actions)) [
  | inl initial ↦ rw initial refl
  | inr other ↦ elim (Bool-cases (any is_rebuild actions)) [
    | inl rebuild ↦ rw (other, rebuild) refl
    | inr no_rebuild ↦ elim (Bool-cases (all_nothing actions)) [
      | inl idle ↦
          rw (other, no_rebuild, idle, all_nothing-addresses actions idle, append-nil addrs) refl
      | inr busy ↦ rw (other, no_rebuild, busy) refl
    ]
  ]
]

fold_actions-from :
    (state : PollFlushAction) (actions : List PollFlushAction)
    → fold_actions state actions ≡ strongest (state ∷ actions)
unfolding fold_actions
fold_actions-from state [] = sym (change_state-nothing state) ∙ change_state-strongest state []
fold_actions-from state (next ∷ actions) =
    fold_actions-from (change_state state next) actions
    ∙ (sym (change_state-strongest (change_state state next) actions)
        ∙ (sym (change_state_assoc state next (strongest actions))
            ∙ (ap (change_state state) (change_state-strongest next actions)
                ∙ change_state-strongest state (next ∷ actions))))

-- However the ends of several requests are interleaved, the connection then makes all its connections
-- anew if any of them asked for that, else reads the slots anew if any of them asked for that, else
-- connects anew to all the nodes that were asked for, or does nothing if none of them asked for anything.
pub fold_actions-strongest :
    (actions : List PollFlushAction) → fold_actions nothing actions ≡ strongest actions
fold_actions-strongest actions = fold_actions-from nothing actions

-- ===== src/Subscriptions/Members.antt =====
-- What a request does to the channels that are tracked.
use redis_rs.Base.{
  ◌≡◌, ◌≢◌, refl, ap, sym, subst, ◌∙◌, Bool, true, false, not, ◌&&◌, ◌||◌, List, [], ◌∷◌, Bytes,
  bytes_eq, bytes_eq_sound, if◌then◌else◌, Bool-cases, inl, inr, arith,
}
use redis_rs.Subscriptions.{
  Channels, SubscriptionTracker, SubscriptionAction, subscribe, unsubscribe, psubscribe,
  punsubscribe, ssubscribe, sunsubscribe, contains, add, remove, additive, update_set,
  update_with_request,
}

contains-same : (k c : Bytes) (s : Channels) → bytes_eq c k ≡ true → contains k s ≡ contains c s
contains-same k c s h = ap (λ x. contains x s) (sym (bytes_eq_sound c k h))

contains-add : (k c : Bytes) (s : Channels) → contains k (add c s) ≡ (bytes_eq c k || contains k s)
unfolding add contains
contains-add k c s = elim (Bool-cases (contains c s)) [
  | inl there ↦ rw there (elim (Bool-cases (bytes_eq c k)) [
    | inl same ↦ rw same (contains-same k c s same ∙ there)
    | inr other ↦ rw other refl
  ])
  | inr absent ↦ rw absent refl
]

-- What remains of a test on the head when a channel is removed.
head-removed :
    (k c d : Bytes) (m : Bool)
    → (if bytes_eq d c then m && not (bytes_eq c k) else bytes_eq d k || (m && not (bytes_eq c k)))
      ≡ ((bytes_eq d k || m) && not (bytes_eq c k))
head-removed k c d m = elim (Bool-cases (bytes_eq c k)) [
  | inr other ↦ elim (Bool-cases (bytes_eq d c)) [
    | inl same ↦
        let e : bytes_eq d k ≡ false =
          subst (λ x. bytes_eq x k ≡ false) (sym (bytes_eq_sound d c same)) other in
        rw (same, e) refl
    | inr apart ↦ rw (apart, other) (ground arith)
  ]
  | inl gone ↦ elim (Bool-cases (bytes_eq d c)) [
    | inl same ↦ rw (same, gone) (ground arith)
    | inr apart ↦
        let e : bytes_eq d k ≡ false =
          subst (λ x. bytes_eq d x ≡ false) (bytes_eq_sound c k gone) apart in
        rw (apart, gone, e) (ground arith)
  ]
]

-- The head of the list, once the removal from the tail is known.
contains-if :
    (k c d : Bytes) (rest : Channels) (m : Bool)
    → contains k rest ≡ m
    → contains k (if bytes_eq d c then rest else d ∷ rest)
      ≡ (if bytes_eq d c then m else bytes_eq d k || m)
unfolding contains
contains-if k c d rest m h = elim (Bool-cases (bytes_eq d c)) [
  | inl same ↦ rw same h
  | inr apart ↦ rw apart (ap (λ x. bytes_eq d k || x) h)
]

contains-remove :
    (k c : Bytes) (s : Channels) → contains k (remove c s) ≡ (contains k s && not (bytes_eq c k))
unfolding remove contains
contains-remove k c [] = refl
contains-remove k c (d ∷ s) =
    contains-if k c d (remove c s) (contains k s && not (bytes_eq c k)) (contains-remove k c s)
    ∙ head-removed k c d (contains k s)

-- After the channels are added or removed, one is tracked when it was asked to be added or was tracked
-- before, or when it was tracked before and was not asked to be removed.
abbrev pub member_after : Bool → Bytes → List Bytes → Bool → Bool
member_after true k args before = contains k args || before
member_after false k args before = before && not (contains k args)

or_swap : (a b m : Bool) → (b || (a || m)) ≡ ((a || b) || m)
or_swap a b m = ground arith

and_not : (a b m : Bool) → ((m && not a) && not b) ≡ (m && not (a || b))
and_not a b m = ground arith

pub update_set-contains :
    (adds : Bool) (k : Bytes) (args : List Bytes) (s : Channels)
    → contains k (update_set adds args s) ≡ member_after adds k args (contains k s)
unfolding update_set contains
update_set-contains true k [] s = refl
update_set-contains false k [] s = ground arith
update_set-contains true k (c ∷ args) s =
    update_set-contains true k args (add c s)
    ∙ (ap (λ m. contains k args || m) (contains-add k c s)
        ∙ or_swap (bytes_eq c k) (contains k args) (contains k s))
update_set-contains false k (c ∷ args) s =
    update_set-contains false k args (remove c s)
    ∙ (ap (λ m. m && not (contains k args)) (contains-remove k c s)
        ∙ and_not (bytes_eq c k) (contains k args) (contains k s))

-- The three kinds of channel, and the tracked channels of a kind.
pub data Kind : Type 0 where
  plain pattern_kind sharded : Kind

abbrev pub kind_of : SubscriptionAction → Kind
kind_of subscribe = plain
kind_of unsubscribe = plain
kind_of psubscribe = pattern_kind
kind_of punsubscribe = pattern_kind
kind_of ssubscribe = sharded
kind_of sunsubscribe = sharded

-- The actions that add their channels.
abbrev pub adds : SubscriptionAction → Bool
adds subscribe = true
adds unsubscribe = false
adds psubscribe = true
adds punsubscribe = false
adds ssubscribe = true
adds sunsubscribe = false

abbrev pub tracked : Kind → SubscriptionTracker → Channels
tracked plain t = t.subscriptions
tracked pattern_kind t = t.p_subscriptions
tracked sharded t = t.s_subscriptions

-- SUBSCRIBE, PSUBSCRIBE and SSUBSCRIBE add their channels to those of their kind, and the three requests
-- to unsubscribe remove theirs; neither another channel nor another kind is touched.
pub update_with_request-contains :
    (action : SubscriptionAction) (args : List Bytes) (t : SubscriptionTracker) (k : Bytes)
    → (contains k (tracked (kind_of action) (update_with_request action args t))
        ≡ member_after (adds action) k args (contains k (tracked (kind_of action) t)))
      × ((kind : Kind)
          → kind ≢ kind_of action
          → tracked kind (update_with_request action args t) ≡ tracked kind t)
unfolding update_with_request additive
update_with_request-contains action args t k = (tracked_same action, tracked_others action)
  where
    tracked_same :
        (a : SubscriptionAction)
        → contains k (tracked (kind_of a) (update_with_request a args t))
          ≡ member_after (adds a) k args (contains k (tracked (kind_of a) t))
    tracked_same subscribe = update_set-contains (adds subscribe) k args t.subscriptions
    tracked_same unsubscribe = update_set-contains (adds unsubscribe) k args t.subscriptions
    tracked_same psubscribe = update_set-contains (adds psubscribe) k args t.p_subscriptions
    tracked_same punsubscribe = update_set-contains (adds punsubscribe) k args t.p_subscriptions
    tracked_same ssubscribe = update_set-contains (adds ssubscribe) k args t.s_subscriptions
    tracked_same sunsubscribe = update_set-contains (adds sunsubscribe) k args t.s_subscriptions

    tracked_others :
        (a : SubscriptionAction) (kind : Kind)
        → kind ≢ kind_of a
        → tracked kind (update_with_request a args t) ≡ tracked kind t
    tracked_others subscribe plain h = absurd (h refl)
    tracked_others unsubscribe plain h = absurd (h refl)
    tracked_others psubscribe pattern_kind h = absurd (h refl)
    tracked_others punsubscribe pattern_kind h = absurd (h refl)
    tracked_others ssubscribe sharded h = absurd (h refl)
    tracked_others sunsubscribe sharded h = absurd (h refl)
    tracked_others _ _ h = refl

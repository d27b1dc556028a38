-- ===== src/Subscriptions/Restore.antt =====
-- The pipeline by which the subscriptions are restored tracks the same channels again.
use redis_rs.Base.{
  ◌≡◌, refl, ap, sym, ◌∙◌, Bool, true, false, ◌||◌, String, Option, none, some, List, [], ◌∷◌, ◌++◌,
  map, Bytes, codes, eq_ignore_ascii_case, arith,
}
use redis_rs.Cmd.{Cmd, simple, new, write_arg, args_iter}
use redis_rs.Cmd.Args.{write_args, new-IsValid, args_iter-write_args}
use redis_rs.Resp.Text.{is_utf8}
use redis_rs.Subscriptions.{
  Channels, SubscriptionTracker, SubscriptionAction, subscribe, psubscribe, ssubscribe, contains,
  additive, simple_args, action_of, request_of, to_request, update_set, update_with_request,
  add_args, subscription_command, get_subscription_pipeline,
}
use redis_rs.Subscriptions.Members.{
  Kind, plain, pattern_kind, sharded, tracked, update_set-contains,
}

unfoldable pub empty : SubscriptionTracker
empty = record { subscriptions = []; s_subscriptions = []; p_subscriptions = [] }

-- `update_with_cmd`.
unfoldable pub apply_request :
    Option (SubscriptionAction × List Bytes) → SubscriptionTracker → SubscriptionTracker
apply_request none t = t
apply_request (some (action, args)) t = update_with_request action args t

unfoldable pub update_with_cmd : Cmd → SubscriptionTracker → SubscriptionTracker
unfolding apply_request
update_with_cmd c t = apply_request (to_request c) t

unfoldable pub replay : List Cmd → SubscriptionTracker → SubscriptionTracker
unfolding update_with_cmd
replay [] t = t
replay (c ∷ cmds) t = replay cmds (update_with_cmd c t)

add_args-write_args : (c : Cmd) (xs : List Bytes) → add_args c xs ≡ write_args c xs
unfolding add_args write_args
add_args-write_args c [] = refl
add_args-write_args c (x ∷ xs) = add_args-write_args (write_arg c x) xs

simple_args-map : (xs : List Bytes) → simple_args (map simple xs) ≡ xs
unfolding simple_args
simple_args-map [] = refl
simple_args-map (x ∷ xs) = ap (◌∷◌ x) (simple_args-map xs)

-- What names the actions.
abbrev Names : String → SubscriptionAction → Type 0
Names name action = (is_utf8 (codes name) ≡ true) × (action_of (codes name) ≡ some action)

to_request-add_args :
    (name : String) (action : SubscriptionAction) (xs : List Bytes)
    → Names name action
    → to_request (add_args (write_arg new (codes name)) xs) ≡ some (action, xs)
unfolding to_request request_of new write_args args_iter
to_request-add_args name action xs h =
    ap (λ c. request_of (args_iter c)) (add_args-write_args (write_arg new (codes name)) xs)
    ∙ (ap request_of (args_iter-write_args new (codes name ∷ xs) new-IsValid)
        ∙ rw (h.0, request_of)
            (rw (h.1, request_of) (ap (λ l. some (action, l)) (simple_args-map xs))))

-- The arguments of the command for a set, none if there is no command.
abbrev restored : (Channels → List Bytes) → Channels → List Bytes
restored order [] = []
restored order (c ∷ channels) = order (c ∷ channels)

replay-append :
    (xs ys : List Cmd) (t : SubscriptionTracker) → replay (xs ++ ys) t ≡ replay ys (replay xs t)
unfolding replay
replay-append [] ys t = refl
replay-append (c ∷ xs) ys t = replay-append xs ys (update_with_cmd c t)

replay-subscription_command :
    (order : Channels → List Bytes) (name : String) (action : SubscriptionAction) (s : Channels)
    (t : SubscriptionTracker)
    → Names name action
    → update_with_request action [] t ≡ t
    → replay (subscription_command order name s) t ≡ update_with_request action (restored order s) t
unfolding replay subscription_command update_with_cmd apply_request
replay-subscription_command order name action [] t h idle = sym idle
replay-subscription_command order name action (c ∷ channels) t h idle =
    ap (λ r. apply_request r t) (to_request-add_args name action (order (c ∷ channels)) h)

module _ (order : Channels → List Bytes) where
  replay-pipeline :
      (t : SubscriptionTracker)
      → replay (get_subscription_pipeline order t) empty
        ≡ update_with_request psubscribe (restored order t.p_subscriptions) (
            update_with_request ssubscribe
              (restored order t.s_subscriptions)
              (update_with_request subscribe (restored order t.subscriptions) empty))
  unfolding get_subscription_pipeline update_with_request update_set additive is_utf8 action_of
      eq_ignore_ascii_case
  replay-pipeline t =
      let first = update_with_request subscribe (restored order t.subscriptions) empty in
      let second = update_with_request ssubscribe (restored order t.s_subscriptions) first in
      let plain_cmds = subscription_command order "SUBSCRIBE" t.subscriptions in
      let sharded_cmds = subscription_command order "SSUBSCRIBE" t.s_subscriptions in
      let pattern_cmds = subscription_command order "PSUBSCRIBE" t.p_subscriptions in
      replay-append plain_cmds (sharded_cmds ++ pattern_cmds) empty
      ∙ (replay-append sharded_cmds pattern_cmds (replay plain_cmds empty)
          ∙ (ap (λ u. replay pattern_cmds (replay sharded_cmds u))
                (replay-subscription_command order "SUBSCRIBE" subscribe t.subscriptions empty
                  (refl, refl) refl)
              ∙ (ap (replay pattern_cmds) (
                    replay-subscription_command order "SSUBSCRIBE" ssubscribe t.s_subscriptions
                      first (refl, refl) refl)
                  ∙ replay-subscription_command order "PSUBSCRIBE" psubscribe t.p_subscriptions
                      second (refl, refl) refl)))

  module _ (members : (k : Bytes) (s : Channels) → contains k (order s) ≡ contains k s) where
    contains-restored :
        (k : Bytes) (s : Channels)
        → contains k (update_set true (restored order s) []) ≡ contains k s
    unfolding contains
    contains-restored k [] = update_set-contains true k [] []
    contains-restored k (c ∷ s) =
        update_set-contains true k (order (c ∷ s)) []
        ∙ (or_false (contains k (order (c ∷ s))) ∙ members k (c ∷ s))
      where
        or_false : (b : Bool) → (b || false) ≡ b
        or_false b = ground arith

    -- Replaying the pipeline on a new connection's tracker tracks exactly the channels that were tracked
    -- before, of each kind, in whatever order the sets are iterated.
    pub replay-get_subscription_pipeline :
        (t : SubscriptionTracker) (kind : Kind) (k : Bytes)
        → contains k (tracked kind (replay (get_subscription_pipeline order t) empty))
          ≡ contains k (tracked kind t)
    unfolding update_with_request empty additive
    replay-get_subscription_pipeline t plain k =
        ap (λ u. contains k (tracked plain u)) (replay-pipeline t)
        ∙ contains-restored k t.subscriptions
    replay-get_subscription_pipeline t pattern_kind k =
        ap (λ u. contains k (tracked pattern_kind u)) (replay-pipeline t)
        ∙ contains-restored k t.p_subscriptions
    replay-get_subscription_pipeline t sharded k =
        ap (λ u. contains k (tracked sharded u)) (replay-pipeline t)
        ∙ contains-restored k t.s_subscriptions

-- ===== src/Subscriptions.antt =====
-- The subscriptions of a connection: redis/src/subscription_tracker.rs. A `HashSet` is a list of its
-- items; the order in which it is iterated is a parameter.
pub mod Members
pub mod Restore
use redis_rs.Base.{
  ℕ, Bool, true, false, not, ◌||◌, String, Option, none, some, List, [], ◌∷◌, ◌++◌, Bytes, codes,
  bytes_eq, eq_ignore_ascii_case, if◌then◌else◌,
}
use redis_rs.Cmd.{Cmd, Arg, simple, cursor, new, write_arg, args_iter}
use redis_rs.Resp.Text.{is_utf8}

abbrev pub Channels : Type 0
Channels = List Bytes

pub record SubscriptionTracker : Type 0 where
  pub subscriptions : Channels
  pub s_subscriptions : Channels
  pub p_subscriptions : Channels

pub data SubscriptionAction : Type 0 where
  subscribe unsubscribe psubscribe punsubscribe ssubscribe sunsubscribe : SubscriptionAction

-- `HashSet::contains`, `insert` and `remove`.
unfoldable pub contains : Bytes → Channels → Bool
unfolding bytes_eq
contains channel [] = false
contains channel (c ∷ channels) = bytes_eq c channel || contains channel channels

unfoldable pub add : Bytes → Channels → Channels
unfolding contains
add channel channels = if contains channel channels then channels else channel ∷ channels

unfoldable pub remove : Bytes → Channels → Channels
unfolding bytes_eq
remove channel [] = []
remove channel (c ∷ channels) =
    let rest = remove channel channels in if bytes_eq c channel then rest else c ∷ rest

unfoldable pub additive : SubscriptionAction → Bool
additive subscribe = true
additive psubscribe = true
additive ssubscribe = true
additive unsubscribe = false
additive punsubscribe = false
additive sunsubscribe = false

unfoldable pub simple_args : List (Arg Bytes) → List Bytes
simple_args [] = []
simple_args (simple arg ∷ args) = arg ∷ simple_args args
simple_args (cursor ∷ args) = simple_args args

unfoldable pub action_of : Bytes → Option SubscriptionAction
unfolding eq_ignore_ascii_case
action_of name =
    if eq_ignore_ascii_case name (codes "SUBSCRIBE")
    then some subscribe
    else if eq_ignore_ascii_case name (codes "PSUBSCRIBE")
    then some psubscribe
    else if eq_ignore_ascii_case name (codes "SSUBSCRIBE")
    then some ssubscribe
    else if eq_ignore_ascii_case name (codes "UNSUBSCRIBE")
    then some unsubscribe
    else if eq_ignore_ascii_case name (codes "PUNSUBSCRIBE")
    then some punsubscribe
    else if eq_ignore_ascii_case name (codes "SUNSUBSCRIBE")
    then some sunsubscribe
    else none

unfoldable pub request_of : List (Arg Bytes) → Option (SubscriptionAction × List Bytes)
unfolding action_of simple_args is_utf8
request_of [] = none
request_of (cursor ∷ args) = none
request_of (simple name ∷ args) =
    if is_utf8 name
    then elim (action_of name) [ none ↦ none | some action ↦ some (action, simple_args args) ]
    else none

unfoldable pub to_request : Cmd → Option (SubscriptionAction × List Bytes)
unfolding args_iter request_of
to_request c = request_of (args_iter c)

-- The loop over the arguments.
unfoldable pub update_set : Bool → List Bytes → Channels → Channels
unfolding add remove
update_set adds [] channels = channels
update_set true (arg ∷ args) channels = update_set true args (add arg channels)
update_set false (arg ∷ args) channels = update_set false args (remove arg channels)

unfoldable pub update_with_request :
    SubscriptionAction → List Bytes → SubscriptionTracker → SubscriptionTracker
unfolding update_set additive
update_with_request subscribe args t = record t {
  subscriptions = update_set (additive subscribe) args t.subscriptions;
}
update_with_request unsubscribe args t = record t {
  subscriptions = update_set (additive unsubscribe) args t.subscriptions;
}
update_with_request psubscribe args t = record t {
  p_subscriptions = update_set (additive psubscribe) args t.p_subscriptions;
}
update_with_request punsubscribe args t = record t {
  p_subscriptions = update_set (additive punsubscribe) args t.p_subscriptions;
}
update_with_request ssubscribe args t = record t {
  s_subscriptions = update_set (additive ssubscribe) args t.s_subscriptions;
}
update_with_request sunsubscribe args t = record t {
  s_subscriptions = update_set (additive sunsubscribe) args t.s_subscriptions;
}

unfoldable pub add_args : Cmd → List Bytes → Cmd
unfolding write_arg
add_args c [] = c
add_args c (arg ∷ args) = add_args (write_arg c arg) args

-- The command for one set, if that is not empty.
unfoldable pub subscription_command : (Channels → List Bytes) → String → Channels → List Cmd
unfolding add_args write_arg new
subscription_command order name [] = []
subscription_command order name (c ∷ channels) =
    add_args (write_arg new (codes name)) (order (c ∷ channels)) ∷ []

-- The commands of the pipeline.
unfoldable pub get_subscription_pipeline : (Channels → List Bytes) → SubscriptionTracker → List Cmd
unfolding subscription_command
get_subscription_pipeline order t =
    subscription_command order "SUBSCRIBE" t.subscriptions
    ++ (subscription_command order "SSUBSCRIBE" t.s_subscriptions
        ++ subscription_command order "PSUBSCRIBE" t.p_subscriptions)

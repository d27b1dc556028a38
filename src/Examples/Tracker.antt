-- ===== src/Examples/Tracker.antt =====
-- The theorems on subscriptions at concrete inputs.
use redis_rs.Base.{◌≡◌, ◌≢◌, refl, List, [], ◌∷◌, Bytes, codes}
use redis_rs.Subscriptions.{
  SubscriptionTracker, unsubscribe, contains, update_with_request, get_subscription_pipeline,
}
use redis_rs.Subscriptions.Members.{
  adds, Kind, plain, kind_of, tracked, member_after, update_with_request-contains,
}
use redis_rs.Subscriptions.Restore.{empty, replay, replay-get_subscription_pipeline}

abbrev tracker : SubscriptionTracker
tracker = record {
  subscriptions = codes "news" ∷ codes "jobs" ∷ [];
  s_subscriptions = [];
  p_subscriptions = codes "a*" ∷ [];
}

abbrev leaving : List Bytes
leaving = codes "jobs" ∷ []

update_with_request-contains_example :
    (contains
        (codes "news")
        (tracked (kind_of unsubscribe) (update_with_request unsubscribe leaving tracker))
      ≡ member_after
          (adds unsubscribe)
          (codes "news")
          leaving
          (contains (codes "news") (tracked (kind_of unsubscribe) tracker)))
    × ((kind : Kind)
        → kind ≢ kind_of unsubscribe
        → tracked kind (update_with_request unsubscribe leaving tracker) ≡ tracked kind tracker)
update_with_request-contains_example =
    update_with_request-contains unsubscribe leaving tracker (codes "news")

replay-get_subscription_pipeline_example :
    contains
      (codes "news")
      (tracked plain (replay (get_subscription_pipeline (λ s. s) tracker) empty))
    ≡ contains (codes "news") (tracked plain tracker)
replay-get_subscription_pipeline_example =
    replay-get_subscription_pipeline (λ s. s) (λ k s. refl) tracker plain (codes "news")

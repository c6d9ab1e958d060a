-- ===== src/Notifications/Consumer/Faults.antt =====
-- services/notification_service/app/kafka/consumer.py and models/store.py when Redis does not
-- answer: the commands of an `append` before the one that raises have been carried out, and the
-- exception goes through `_handle_message` and the loop of `_run`.
pub mod Stops
pub mod Capped
use orbit_commerce_platform.Catalog.Models.{Time}
use orbit_commerce_platform.Notifications.Manager.{Socket}
use orbit_commerce_platform.Notifications.Store.{
  Redis, append, history_key, last_of, max_history_per_recipient,
}
use orbit_commerce_platform.Notifications.Consumer.{
  Incoming, recipient_for, Json, get, Notification, Fields, or_default, object, text, State, empty,
  deliver, run_next, deliver_odd,
}
use orbit_commerce_platform.Prelude.{
  ◌∷◌, [], Text, Option, some, ℕ, Bool, none, codes, true, List, false,
}

-- Where an `append` meets an exception.
pub data Fault : Type 0 where
  no_fault lpush_fails ltrim_fails expire_fails : Fault

-- What `_handle_message` makes of a message before it stores anything.
pub data Route : Type 0 where
  skips : Route
  stores : Text → Notification → Route
  raises : Route
  leaves : Json → Notification → Route

pub route_to : Option Json → Notification → Route
route_to none n = raises
route_to (some (text recipient)) n = stores recipient n
route_to (some v) n = leaves v n

pub route_fields : Incoming → Fields → Route
unfolding route_to recipient_for get
route_fields m fields =
    let event_type = or_default (get (codes "event_type") fields) (text (codes "unknown")) in
    let payload = or_default (get (codes "data") fields) (object empty) in
    route_to (recipient_for event_type payload)
      (record { id = m.fresh; event_type = event_type; payload = payload })

pub route_value : Incoming → Option Json → Route
unfolding route_fields
route_value m none = skips
route_value m (some (object fields)) = route_fields m fields
route_value m (some _) = raises

unfoldable pub route : Incoming → Route
unfolding route_value
route m = route_value m m.value

module _ (r : Redis Notification) (ttl_seconds : ℕ) (sends : Socket → Notification → Bool)
    (formatted : Json → Text) where
  -- `append`, up to the command that raises.
  unfoldable pub append_until : Fault → Time → Text → Notification → r.Data → r.Data
  unfolding append history_key
  append_until no_fault now recipient n d = append r ttl_seconds now recipient n d
  append_until lpush_fails now recipient n d = d
  append_until ltrim_fails now recipient n d = r.lpush now (history_key recipient) n d
  append_until expire_fails now recipient n d =
      let key = history_key recipient in
      r.ltrim now key (last_of max_history_per_recipient) (r.lpush now key n d)

  -- Whether the consumer goes on, and the state that is left.
  unfoldable pub store_and_send : Fault → Time → Text → Notification → State r → Bool × State r
  unfolding append_until deliver
  store_and_send no_fault now recipient n s =
      (true, deliver r ttl_seconds sends formatted now recipient n s)
  store_and_send fault now recipient n s =
      (false, record s { history = append_until fault now recipient n s.history })

  unfoldable pub store_odd : Fault → Time → Json → Notification → State r → Bool × State r
  unfolding append_until deliver_odd
  store_odd no_fault now v n s = deliver_odd r ttl_seconds sends formatted now v n s
  store_odd fault now v n s =
      (false, record s { history = append_until fault now (formatted v) n s.history })

  pub follow : Route → Fault → Incoming → State r → Bool × State r
  unfolding store_and_send store_odd
  follow skips fault m s = (true, s)
  follow (stores recipient n) fault m s = store_and_send fault m.now recipient n s
  follow raises fault m s = (false, s)
  follow (leaves v n) fault m s = store_odd fault m.now v n s

  unfoldable pub handle_faulty : Fault → Incoming → State r → Bool × State r
  unfolding follow route
  handle_faulty fault m s = follow (route m) fault m s

  -- The loop of `_run`, on messages each with the fault that its `append` meets.
  unfoldable pub run_faulty : List (Fault × Incoming) → State r → Bool × State r
  unfolding handle_faulty
  run_faulty [] s = (true, s)
  run_faulty ((fault, m) ∷ rest) s =
      run_next r ttl_seconds sends formatted (handle_faulty fault m s) (λ s'. run_faulty rest s')

-- ===== src/Notifications/Listing.antt =====
-- services/notification_service/app/routers/notifications.py and app/schemas/notification.py. What
-- pydantic takes for a text and for a dictionary is a JSON text and a JSON object.
pub mod Newest
pub mod Customers
use orbit_commerce_platform.Notifications.Store.{Redis, list_recent}
use orbit_commerce_platform.Notifications.Consumer.{Fields, Json, Notification, text, object}
use orbit_commerce_platform.Catalog.Models.{Time}
use orbit_commerce_platform.Prelude.{
  ℕ, Text, Bool, List, Option, ◌≡◌, ◌∷◌, [], ◌&&◌, if◌then◌else◌, none, some, leb,
}

pub record NotificationOut : Type 0 where
  pub id : ℕ
  pub event_type : Text
  pub payload : Fields
  pub received_at : Time

-- The answers: a limit out of 1 to 100 is refused with 422, and an entry that is no
-- `NotificationOut` is an exception, answered 500.
pub data Listing : Type 0 where
  unprocessable server_error : Listing
  listed : List NotificationOut → Listing

unfoldable pub validated : Time → ℕ → Json → Json → Option NotificationOut
validated now id (text event_type) (object payload) =
    some (record { id = id; event_type = event_type; payload = payload; received_at = now })
validated now id _ _ = none

-- `NotificationOut(**item)`. A stored entry has no `received_at`, so the time is that of the
-- request.
unfoldable pub notification_out : Time → Notification → Option NotificationOut
unfolding validated
notification_out now n = validated now n.id n.event_type n.payload

unfoldable pub in_front :
    Option NotificationOut → Option (List NotificationOut) → Option (List NotificationOut)
in_front none rest = none
in_front (some out) none = none
in_front (some out) (some outs) = some (out ∷ outs)

unfoldable pub notifications_out : Time → List Notification → Option (List NotificationOut)
unfolding notification_out in_front
notifications_out now [] = some []
notifications_out now (n ∷ ns) = in_front (notification_out now n) (notifications_out now ns)

unfoldable pub answer : Option (List NotificationOut) → Listing
answer none = server_error
answer (some outs) = listed outs

module _ (r : Redis Notification) (ttl_seconds : ℕ) where
  unfoldable pub list_notifications : Time → Text → ℕ → r.Data → Listing
  unfolding list_recent notifications_out answer
  list_notifications now recipient limit d =
      if leb 1 limit && leb limit 100
      then answer (notifications_out now (list_recent r ttl_seconds now recipient limit d))
      else unprocessable

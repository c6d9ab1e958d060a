-- ===== src/Tests/Notifications.antt =====
-- services/notification_service
use orbit_commerce_platform.Notifications.Listing.{
  notifications_out, notification_out, validated, in_front, answer, list_notifications,
  server_error,
}
use orbit_commerce_platform.Notifications.Listing.Newest.{Answers, list_notifications-newest}
use orbit_commerce_platform.Orders.Models.{paid}
use orbit_commerce_platform.Platform.Memory.{ready}
use orbit_commerce_platform.Common.Kafka.{Broker, uncalled, order_payload}
use orbit_commerce_platform.Common.Kafka.Outage.{Call, publish_all, outage_is_permanent}
use orbit_commerce_platform.Notifications.Consumer.{
  array, cons, nil, Fields, Json, State, Notification, Incoming, text, field, object, number, empty,
}
use orbit_commerce_platform.Notifications.Manager.Fanout.{live, broadcast_exact}
use orbit_commerce_platform.Notifications.Manager.{
  Connections, Socket, broadcast, contains, connect, add,
}
use orbit_commerce_platform.Notifications.Store.Feed.{append_all}
use orbit_commerce_platform.Notifications.Store.Memory.{memory_redis, memory_redis-IsRedis}
use orbit_commerce_platform.Catalog.Models.{Time}
use orbit_commerce_platform.Notifications.Store.{Redis, list_recent, last_of, append}
use orbit_commerce_platform.Prelude.{
  ◌≢◌, ℕ, ◌≡◌, [], ◌∷◌, List, codes, some, arith, refl, filter, Bool, ◌&&◌, text_eq, none, not,
  Text, ◌==◌, pos, leb,
}

abbrev sockets_3 : Connections
sockets_3 = connect (codes "c1") 9 (connect (codes "ops") 2 (connect (codes "ops") 1 (λ j. none)))

-- Socket 2 is gone.
abbrev only_odd : Socket → ℕ → Bool
only_odd s n = not (s == 2)

broadcast_exact_example :
    ((broadcast only_odd (codes "ops") 5 sockets_3).0
      ≡ filter (λ s. only_odd s 5) (live (codes "ops") sockets_3))
    × ((y : Socket)
        → contains y (live (codes "ops") (broadcast only_odd (codes "ops") 5 sockets_3).1)
          ≡ (contains y (live (codes "ops") sockets_3) && only_odd y 5))
    × ((other : Text) (y : Socket)
        → codes "ops" ≢ other
        → contains y (live other (broadcast only_odd (codes "ops") 5 sockets_3).1)
          ≡ contains y (live other sockets_3))
broadcast_exact_example = broadcast_exact only_odd (codes "ops") 5 sockets_3

one_left : (broadcast only_odd (codes "ops") 5 sockets_3).0 ≡ 1 ∷ []
unfolding broadcast connect add text_eq
one_left = refl

abbrev pub feed : Redis Notification
feed = memory_redis

abbrev pub takes : Socket → Notification → Bool
takes s n = not (s == 2)

abbrev pub written : Json → Text
written v = codes "7"

abbrev pub quiet : State feed
quiet = record { history = λ t k. []; connections = sockets_3; sent = [] }

abbrev order_data : Fields
order_data = field (codes "customer_id") (text (codes "c1")) empty

abbrev paid_fields : Fields
paid_fields =
    field (codes "event_type") (text (codes "order.paid"))
      (field (codes "data") (object order_data) empty)

abbrev pub paid_message : Incoming
paid_message = record { value = some (object paid_fields); fresh = 1; now = 7 }

abbrev pub paid_note : Notification
paid_note = record { id = 1; event_type = text (codes "order.paid"); payload = object order_data }

-- The customer of this one is a list: the append is done, and then the consumer stops.
abbrev listed_data : Fields
listed_data = field (codes "customer_id") (array (cons (number (pos 7)) nil)) empty

abbrev pub listed_message : Incoming
listed_message = record {
  value = some (
      object (
        field (codes "event_type") (text (codes "order.paid"))
          (field (codes "data") (object listed_data) empty)));
  fresh = 4;
  now = 8;
}

abbrev low_data : Fields
low_data = field (codes "sku") (text (codes "MUG")) empty

abbrev low_note : Notification
low_note = record { id = 2; event_type = text (codes "stock.reserved"); payload = object low_data }

-- An event for "ops" whose data is no object.
abbrev odd_note : Notification
odd_note = record { id = 3; event_type = text (codes "stock.odd"); payload = number (pos 4) }

abbrev more : List (Time × Notification)
more = (7, low_note) ∷ (9, odd_note) ∷ []

abbrev three_told : feed.Data
three_told =
    append_all feed memory_redis-IsRedis 600 (codes "ops") ((5, paid_note) ∷ more) quiet.history

list_notifications-newest_example :
    Answers feed memory_redis-IsRedis 600
      (codes "ops")
      10
      (odd_note ∷ low_note ∷ [])
      (list_notifications feed 600 10 (codes "ops") 2 three_told)
list_notifications-newest_example =
    list_notifications-newest feed memory_redis-IsRedis 600 (codes "ops") 5 10 paid_note more 2
      quiet.history refl (ground arith) (omega arith) (omega arith)

-- The listing fails, because the newest event has no object for its data.
ops_cannot_list : list_notifications feed 600 10 (codes "ops") 2 three_told ≡ server_error
unfolding list_notifications list_recent last_of append notifications_out notification_out validated
    in_front answer text_eq
ops_cannot_list = refl

abbrev bare : Incoming
bare = record { value = some (number (pos 3)); fresh = 2; now = 8 }

abbrev garbage : Incoming
garbage = record { value = none; fresh = 3; now = 9 }

abbrev up_after_ten : Broker
up_after_ten = record ready { connects = λ t. leb 10 t }

abbrev call_at : Time → Call
call_at t = record {
  now = t;
  topic = "order-events";
  event_type = "order.paid";
  payload = order_payload 1 2 paid (pos 100);
  key = none;
}

outage_is_permanent_example :
    (publish_all up_after_ten
      (call_at 5 ∷ call_at 20 ∷ [])
      (record { producer = uncalled; delivered = [] })).delivered
    ≡ []
outage_is_permanent_example =
    outage_is_permanent up_after_ten (call_at 5) (call_at 20 ∷ [])
      (record { producer = uncalled; delivered = [] }) refl refl

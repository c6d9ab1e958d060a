-- ===== src/Tests/Service.antt =====
-- services/notification_service: its settings, its life, its sockets, and a message from the shop.
use orbit_commerce_platform.Notifications.Lifecycle.Connected.{health_tells}
use orbit_commerce_platform.Catalog.Models.{Time}
use orbit_commerce_platform.Notifications.Consumer.Events.{
  arrival, addressee, notification_of, event_reaches_addressee,
}
use orbit_commerce_platform.Platform.Memory.{ready}
use orbit_commerce_platform.Notifications.Store.Memory.{memory_redis, memory_redis-IsRedis}
use orbit_commerce_platform.Notifications.Manager.Fanout.{live}
use orbit_commerce_platform.Notifications.Manager.Session.{
  Leaves, broadcast_meanwhile, SocketEvent, socket_events, joined, notifications_socket, left,
  broadcast_meanwhile_exact, SameBut, notifications_socket_exact,
}
use orbit_commerce_platform.Notifications.Store.{Redis, history_key, max_history_per_recipient}
use orbit_commerce_platform.Common.Kafka.{
  Payload, Bus, Message, present, stock_payload, publish_event,
}
use orbit_commerce_platform.Notifications.Lifecycle.{
  health, all_happen, Event, opened, begins, starts, new_consumer, connects, stops, consuming,
  leaves, happens, closing, abandoned, closes, breaks,
}
use orbit_commerce_platform.Notifications.Manager.{Socket, Connections, connect, contains, add}
use orbit_commerce_platform.Notifications.Consumer.{
  State, Json, Notification, starts_with, handle_message,
}
use orbit_commerce_platform.Notifications.Settings.{
  kafka_topic_list, topics_of, add_topic, default_topics,
}
use orbit_commerce_platform.Prelude.{
  ◌≡◌, ◌≢◌, ◌↔◌, ◌∷◌, ◌&&◌, ◌++◌, ◌+◌, [], codes, refl, ℤ, List, strip, ℕ, split_text, filter,
  skip_spaces, Bool, Text, some, split_from, pos_part, none, is_space, if◌then◌else◌, not, true,
  text_eq, ◌==◌, false, ltb, take, map, ◌⊎◌,
}

default_list :
    kafka_topic_list default_topics ≡ codes "order-events" ∷ codes "inventory-events" ∷ []
unfolding kafka_topic_list split_text split_from topics_of add_topic strip skip_spaces is_space
default_list = refl

-- Stopped while it consumes: the task leaves its loop, and is still waiting for the client.
abbrev a_day : List Event
a_day = starts ∷ begins connects ∷ stops ∷ leaves ∷ []

health_tells_example :
    (((health opened true (all_happen a_day new_consumer)).kafka_connected ≡ true) ↔ (
      ((all_happen a_day new_consumer).task ≡ consuming)
      ⊎ (((all_happen a_day new_consumer).task ≡ closing)
          ⊎ ((all_happen a_day new_consumer).task ≡ abandoned))))
    × ((all_happen a_day new_consumer).task ≡ closing
        → (later : List Event)
        → let c = all_happen later (happens (closes breaks) (all_happen a_day new_consumer)) in
          (c.task ≡ abandoned) × ((health opened true c).kafka_connected ≡ true))
health_tells_example = health_tells a_day opened true

a_day-closing : (all_happen a_day new_consumer).task ≡ closing
unfolding happens
a_day-closing = refl

abbrev ops_1_2 : Connections
ops_1_2 = connect (codes "ops") 2 (connect (codes "ops") 1 (λ j. none))

abbrev not_2 : Socket → ℕ → Bool
not_2 s n = not (s == 2)

-- Socket 9 comes while the message goes to socket 2.
abbrev nine_comes : Socket → List SocketEvent
nine_comes s = if s == 2 then joined (codes "ops") 9 ∷ [] else []

broadcast_meanwhile_exact_example :
    ((broadcast_meanwhile not_2 nine_comes (codes "ops") 5 ops_1_2).0
      ≡ filter (λ s. not_2 s 5) (live (codes "ops") ops_1_2))
    × ((other : Text) (y : Socket)
        → ((s : Socket) → Leaves y (nine_comes s))
        → contains y (live other (broadcast_meanwhile not_2 nine_comes (codes "ops") 5 ops_1_2).1)
          ≡ (contains y (live other ops_1_2)
              && not (text_eq (codes "ops") other && not (not_2 y 5))))
broadcast_meanwhile_exact_example =
    broadcast_meanwhile_exact not_2 nine_comes (codes "ops") 5 ops_1_2

only_1 : (broadcast_meanwhile not_2 nine_comes (codes "ops") 5 ops_1_2).0 ≡ 1 ∷ []
unfolding broadcast_meanwhile socket_events connect add text_eq
only_1 = refl

abbrev busy : List SocketEvent
busy = joined (codes "c1") 8 ∷ left (codes "ops") 1 ∷ []

notifications_socket_exact_example :
    (Leaves 7 busy
      → contains 7 (live (codes "ops") (socket_events busy (connect (codes "ops") 7 ops_1_2)))
        ≡ true)
    × (contains 7 (live (codes "ops") (notifications_socket (codes "ops") 7 busy ops_1_2)) ≡ false)
    × SameBut 7 (notifications_socket (codes "ops") 7 busy ops_1_2) (socket_events busy ops_1_2)
notifications_socket_exact_example = notifications_socket_exact (codes "ops") 7 busy ops_1_2

abbrev feed : Redis Notification
feed = memory_redis

abbrev all_take : Socket → Notification → Bool
all_take s n = true

abbrev written : Json → Text
written v = codes "7"

abbrev quiet : State feed
quiet = record { history = λ t k. []; connections = ops_1_2; sent = [] }

abbrev up : Bus
up = record { producer = present; delivered = [] }

abbrev digits : ℕ → Text
digits k = (48 + k) ∷ []

abbrev cents : ℤ → Text
cents z = digits (pos_part z)

abbrev low : Payload
low = stock_payload 4 "MUG" 2 1 true

abbrev low_message : Message
low_message = record {
  topic = "inventory-events";
  key = some 4;
  event_type = "stock.reserved";
  payload = low;
}

event_reaches_addressee_example :
    (s' : State feed) × ((publish_event ready 5 "inventory-events" "stock.reserved" low
        (some 4)
        up).delivered
      ≡ up.delivered ++ low_message ∷ [])
    × (handle_message feed 600 all_take written (arrival digits cents low_message 3 7) quiet
        ≡ (true, s'))
    × (feed.entries 7 (history_key (addressee digits cents low)) s'.history ≡ (
        if ltb 7 (7 + 600)
        then take max_history_per_recipient (
            notification_of digits cents low_message 3
            ∷ feed.entries 7 (history_key (addressee digits cents low)) quiet.history)
        else []))
    × (s'.sent
        ≡ quiet.sent
          ++ map
              (λ socket. (socket, notification_of digits cents low_message 3))
              (filter
                (λ k. all_take k (notification_of digits cents low_message 3))
                (live (addressee digits cents low) quiet.connections)))
    × ((other : Text) (t : Time)
        → addressee digits cents low ≢ other
        → feed.entries t (history_key other) s'.history
          ≡ feed.entries t (history_key other) quiet.history)
unfolding starts_with
event_reaches_addressee_example =
    event_reaches_addressee digits cents feed memory_redis-IsRedis 600 all_take written ready up 5 7
      "inventory-events" "stock.reserved" low (some 4) 3 quiet refl refl refl

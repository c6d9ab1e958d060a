-- ===== src/Notifications/Consumer/Events.antt =====
-- From the shop to the recipient: the JSON of services/core_api/apps/common/kafka.py, with the
-- payloads of orders/services.py and inventory/services.py, as services/notification_service's
-- consumer reads it. That reading the JSON gives back what was written is the `json` library's;
-- `str` of a key and of an amount are parameters.
use orbit_commerce_platform.Common.Kafka.Delivery.{publish_event-present}
use orbit_commerce_platform.Notifications.Store.Feed.{append_other, append-entries}
use orbit_commerce_platform.Notifications.Manager.Fanout.{live, broadcast_exact}
use orbit_commerce_platform.Notifications.Consumer.Delivery.{order_recipient}
use orbit_commerce_platform.Notifications.Manager.{Socket}
use orbit_commerce_platform.Notifications.Consumer.{
  Notification, Json, Fields, text, object, field, Incoming, empty, State, number, starts_with,
  boolean, handle_message, deliver, get, deliver_to, recipient_for, or_default,
}
use orbit_commerce_platform.Common.Kafka.{
  Message, Payload, order_payload, stock_payload, publish_event, Broker, Bus, present,
}
use orbit_commerce_platform.Notifications.Store.{
  Redis, IsRedis, history_key, max_history_per_recipient,
}
use orbit_commerce_platform.Orders.Models.{status_value, Status}
use orbit_commerce_platform.Catalog.Models.{Uuid, Time}
use orbit_commerce_platform.Prelude.{
  ◌∙◌, ap, refl, Text, ℤ, [], ◌∷◌, ◌++◌, ◌≡◌, ◌≢◌, codes, ℕ, Bool, some, Option, String, pos, false,
  true, text_eq, sym, if◌then◌else◌, ltb, ◌+◌, take, map, filter, arith,
}

other_recipient :
    (kind : Text) (data' : Json)
    → starts_with (codes "order.") kind ≡ false
    → recipient_for (text kind) data' ≡ some (text (codes "ops"))
unfolding recipient_for
other_recipient kind data' other = rw other

module _ (str : Uuid → Text) (money : ℤ → Text) where
  -- The dictionaries of `_order_event_payload` and `_publish_stock_event`.
  unfoldable pub payload_fields : Payload → Fields
  unfolding status_value
  payload_fields (order_payload id customer status total) =
      field (codes "order_id") (text (str id)) (
        field (codes "customer_id") (text (str customer)) (
          field (codes "status") (text (codes (status_value status)))
            (field (codes "total_amount") (text (money total)) empty)))
  payload_fields (stock_payload product sku delta available below) =
      field (codes "product_id") (text (str product)) (
        field (codes "sku") (text (codes sku)) (
          field (codes "quantity_delta") (number (pos delta)) (
            field (codes "available_quantity") (number (pos available))
              (field (codes "below_reorder_threshold") (boolean below) empty))))

  -- `envelope`
  unfoldable pub envelope : Message → Json
  unfolding payload_fields
  envelope m = object (
      field (codes "event_type") (text (codes m.event_type))
        (field (codes "data") (object (payload_fields m.payload)) empty))

  -- The message as the consumer gets it.
  abbrev pub arrival : Message → ℕ → Time → Incoming
  arrival m fresh now = record { value = some (envelope m); fresh = fresh; now = now }

  -- What the consumer makes of it.
  abbrev pub notification_of : Message → ℕ → Notification
  notification_of m fresh = record {
    id = fresh;
    event_type = text (codes m.event_type);
    payload = object (payload_fields m.payload);
  }

  customer_in :
      (m : Message) (id customer : Uuid) (status : Status) (total : ℤ)
      → m.payload ≡ order_payload id customer status total
      → get (codes "customer_id") (payload_fields m.payload) ≡ some (text (str customer))
  unfolding get text_eq payload_fields
  customer_in m id customer status total payload =
      ap (λ p. get (codes "customer_id") (payload_fields p)) payload

  module _ (r : Redis Notification) (ttl_seconds : ℕ) (sends : Socket → Notification → Bool)
      (formatted : Json → Text) where
    routed :
        (m : Message) (fresh : ℕ) (now : Time) (s : State r)
        → handle_message r ttl_seconds sends formatted (arrival m fresh now) s
          ≡ deliver_to r ttl_seconds sends formatted
              (recipient_for (text (codes m.event_type)) (object (payload_fields m.payload)))
              (arrival m fresh now)
              (notification_of m fresh)
              s
    unfolding handle_message envelope get text_eq or_default
    routed m fresh now s = refl

    order_message :
        (m : Message) (id customer : Uuid) (status : Status) (total : ℤ) (x : ℕ) (c : Text)
        (fresh : ℕ) (now : Time) (s : State r)
        → m.payload ≡ order_payload id customer status total
        → starts_with (codes "order.") (codes m.event_type) ≡ true
        → str customer ≡ x ∷ c
        → handle_message r ttl_seconds sends formatted (arrival m fresh now) s
          ≡ (true, deliver r ttl_seconds sends formatted now (x ∷ c) (notification_of m fresh) s)
    unfolding deliver_to
    order_message m id customer status total x c fresh now s payload order name =
        routed m fresh now s
        ∙ ap
            (λ o.
              deliver_to r ttl_seconds sends formatted o (arrival m fresh now)
                (notification_of m fresh) s)
            (order_recipient (payload_fields m.payload) (codes m.event_type) c x order
              (customer_in m id customer status total payload ∙ ap (λ t. some (text t)) name))

    stock_message :
        (m : Message) (product : Uuid) (sku : String) (delta available : ℕ) (below : Bool)
        (fresh : ℕ) (now : Time) (s : State r)
        → m.payload ≡ stock_payload product sku delta available below
        → starts_with (codes "order.") (codes m.event_type) ≡ false
        → handle_message r ttl_seconds sends formatted (arrival m fresh now) s ≡ (
          true,
          deliver r ttl_seconds sends formatted now (codes "ops") (notification_of m fresh) s,
        )
    unfolding deliver_to
    stock_message m product sku delta available below fresh now s payload other =
        routed m fresh now s
        ∙ ap
            (λ o.
              deliver_to r ttl_seconds sends formatted o (arrival m fresh now)
                (notification_of m fresh) s)
            (other_recipient (codes m.event_type) (object (payload_fields m.payload)) other)

  -- Whom the shop means a payload for.
  abbrev pub addressee : Payload → Text
  addressee (order_payload id customer status total) = str customer
  addressee (stock_payload product sku delta available below) = codes "ops"

  -- The shop's way to name events: those of orders, and no others, begin with "order.".
  abbrev pub IsNamed : String → Payload → Type 0
  IsNamed kind (order_payload id customer status total) =
      (starts_with (codes "order.") (codes kind) ≡ true) × (str customer ≢ [])
  IsNamed kind (stock_payload product sku delta available below) =
      starts_with (codes "order.") (codes kind) ≡ false

  module _ (r : Redis Notification) (laws : IsRedis r) (ttl_seconds : ℕ)
      (sends : Socket → Notification → Bool) (formatted : Json → Text) where
    pub delivered_to :
        (m : Message) (p : Payload) (fresh : ℕ) (now : Time) (s : State r)
        → m.payload ≡ p
        → IsNamed m.event_type p
        → handle_message r ttl_seconds sends formatted (arrival m fresh now) s ≡ (
          true,
          deliver r ttl_seconds sends formatted now (addressee p) (notification_of m fresh) s,
        )
    delivered_to m (order_payload id customer status total) fresh now s at (order, named) =
        customer_text (str customer) refl
      where
        customer_text :
            (t : Text)
            → str customer ≡ t
            → handle_message r ttl_seconds sends formatted (arrival m fresh now) s ≡ (
              true,
              deliver r ttl_seconds sends formatted now (str customer) (notification_of m fresh) s,
            )
        customer_text [] e = absurd (named e)
        customer_text (x ∷ c) e =
            order_message r ttl_seconds sends formatted m id customer status total x c fresh now s
              at order e
            ∙ ap
                (λ t.
                  (true, deliver r ttl_seconds sends formatted now t (notification_of m fresh) s))
                (sym e)
    delivered_to m (stock_payload product sku delta available below) fresh now s at other =
        stock_message r ttl_seconds sends formatted m product sku delta available below fresh now s
          at other

    -- An event that the shop publishes while its producer is up and the broker takes the message
    -- is the next message of the topic. When the consumer handles it, it is put in front of the
    -- history of the recipient that the shop means (the order's customer, or "ops" for stock) and
    -- sent to that recipient's working sockets; the history of all others stays as it was.
    pub event_reaches_addressee :
        (b : Broker) (bus : Bus) (sent_at now : Time) (topic kind : String) (payload : Payload)
        (key : Option Uuid) (fresh : ℕ) (s : State r)
        → IsNamed kind payload
        → bus.producer ≡ present
        → let m : Message = record {
          topic = topic;
          key = key;
          event_type = kind;
          payload = payload;
        } in
          b.sends sent_at m ≡ true
          → (s' : State r) × ((publish_event b sent_at topic kind payload key bus).delivered
              ≡ bus.delivered ++ m ∷ [])
            × (handle_message r ttl_seconds sends formatted (arrival m fresh now) s ≡ (true, s'))
            × (r.entries now (history_key (addressee payload)) s'.history ≡ (
                if ltb now (now + ttl_seconds)
                then take max_history_per_recipient (
                    notification_of m fresh
                    ∷ r.entries now (history_key (addressee payload)) s.history)
                else []))
            × (s'.sent
                ≡ s.sent
                  ++ map
                      (λ socket. (socket, notification_of m fresh))
                      (filter
                        (λ k. sends k (notification_of m fresh))
                        (live (addressee payload) s.connections)))
            × ((other : Text) (t : Time)
                → addressee payload ≢ other
                → r.entries t (history_key other) s'.history
                  ≡ r.entries t (history_key other) s.history)
    unfolding deliver
    event_reaches_addressee b bus sent_at now topic kind payload key fresh s named up took =
        let m : Message = record {
          topic = topic;
          key = key;
          event_type = kind;
          payload = payload;
        } in
        let n = notification_of m fresh in
        (
          deliver r ttl_seconds sends formatted now (addressee payload) n s,
          publish_event-present b bus sent_at topic kind payload key up took,
          delivered_to m payload fresh now s refl named,
          append-entries r laws ttl_seconds (addressee payload) now now n s.history (omega arith),
          ap (λ l. s.sent ++ map (λ socket. (socket, n)) l)
              ((broadcast_exact sends (addressee payload) n s.connections).0),
          λ other t ne.
              append_other r laws ttl_seconds (addressee payload) now t other n s.history ne,
        )

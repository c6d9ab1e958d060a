-- ===== src/Common/Kafka.antt =====
-- services/core_api/apps/common/kafka.py: the best-effort producer. The broker and the client
-- library are the parameter `Broker`; `lru_cache` is the state `Producer`.
pub mod Outage
pub mod Delivery
use orbit_commerce_platform.Prelude.{ℕ, String, ℤ, Bool, Option, List, [], ◌∷◌, ◌++◌, if◌then◌else◌}
use orbit_commerce_platform.Catalog.Models.{Uuid, Time}
use orbit_commerce_platform.Orders.Models.{Status}

-- The two payloads that the services publish: that of `_publish_stock_event`, and that of
-- `_order_event_payload`.
pub data Payload : Type 0 where
  stock_payload :
      (product_id : Uuid) (sku : String) (quantity_delta available_quantity : ℕ)
      (below_reorder_threshold : Bool)
      → Payload
  order_payload : (order_id customer_id : Uuid) (status : Status) (total_amount : ℤ) → Payload

pub record Message : Type 0 where
  pub topic : String
  pub key : Option Uuid
  pub event_type : String
  pub payload : Payload

-- The settings, and what the client library does at each time: whether a producer can be built,
-- whether `send` takes a message and whether `flush` comes back without an exception.
pub record Broker : Type 0 where
  pub producer_enabled : Bool
  pub connects : Time → Bool
  pub sends : Time → Message → Bool
  pub flushes : Time → Message → Bool

-- What `lru_cache(maxsize=1)` holds for `_get_producer`: nothing yet, `None`, or a producer.
pub data Producer : Type 0 where
  uncalled absent present : Producer

pub record Bus : Type 0 where
  pub producer : Producer
  pub delivered : List Message

pub build_producer : Broker → Time → Producer
build_producer b now =
    if b.producer_enabled then (if b.connects now then present else absent) else absent

unfoldable pub get_producer : Broker → Time → Producer → Producer
unfolding build_producer
get_producer b now uncalled = build_producer b now
get_producer b now absent = absent
get_producer b now present = present

-- The `try` block: what is delivered once `send` has returned stays delivered if `flush` raises.
pub send_and_flush : Broker → Time → Message → List Message → List Message
send_and_flush b now m sent =
    if b.sends now m
    then (let out = sent ++ m ∷ [] in if b.flushes now m then out else out)
    else sent

pub publish_message : Broker → Time → Message → Producer → List Message → List Message
unfolding send_and_flush
publish_message b now m uncalled sent = sent
publish_message b now m absent sent = sent
publish_message b now m present sent = send_and_flush b now m sent

-- Failures are swallowed, so this returns the new state and no error.
unfoldable pub publish_event : Broker → Time → String → String → Payload → Option Uuid → Bus → Bus
unfolding get_producer publish_message
publish_event b now topic event_type payload key bus =
    let producer = get_producer b now bus.producer in
    record {
      producer = producer;
      delivered =
          publish_message b now
            (record { topic = topic; key = key; event_type = event_type; payload = payload })
            producer bus.delivered;
    }

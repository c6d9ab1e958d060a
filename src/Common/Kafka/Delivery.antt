-- ===== src/Common/Kafka/Delivery.antt =====
-- What a producer that is up does in common/kafka.py.
use orbit_commerce_platform.Catalog.Models.{Time, Uuid}
use orbit_commerce_platform.Common.Kafka.{
  publish_event, get_producer, publish_message, send_and_flush, Broker, Bus, Payload, present,
  Message,
}
use orbit_commerce_platform.Prelude.{String, Option, ◌≡◌, ◌∷◌, ◌++◌, [], true, Bool-cases, inl, inr}

-- A message that the broker takes is delivered, also where the flush fails afterwards.
pub publish_event-present :
    (b : Broker) (bus : Bus) (now : Time) (topic kind : String) (payload : Payload)
    (key : Option Uuid)
    → bus.producer ≡ present
    → let m : Message = record { topic = topic; key = key; event_type = kind; payload = payload } in
      b.sends now m ≡ true
      → (publish_event b now topic kind payload key bus).delivered ≡ bus.delivered ++ m ∷ []
unfolding publish_event get_producer publish_message send_and_flush
publish_event-present b bus now topic kind payload key up took =
    let m : Message = record { topic = topic; key = key; event_type = kind; payload = payload } in
    elim (Bool-cases (b.flushes now m)) [
      | inl flushed ↦ rw (up, took, flushed)
      | inr stuck ↦ rw (up, took, stuck)
    ]

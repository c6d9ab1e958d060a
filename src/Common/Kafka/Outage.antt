-- ===== src/Common/Kafka/Outage.antt =====
-- What the cached producer of common/kafka.py does when the broker is down at its first use.
use orbit_commerce_platform.Catalog.Models.{Time, Uuid}
use orbit_commerce_platform.Common.Kafka.{
  publish_event, Broker, Bus, Payload, get_producer, build_producer, publish_message, uncalled,
  absent,
}
use orbit_commerce_platform.Prelude.{
  ◌∙◌, String, Option, List, ◌≡◌, ◌∷◌, [], false, Bool-cases, refl, inl, inr,
}

-- The arguments of one call of `publish_event`, and its time.
pub record Call : Type 0 where
  pub now : Time
  pub topic : String
  pub event_type : String
  pub payload : Payload
  pub key : Option Uuid

abbrev pub publish_all : Broker → List Call → Bus → Bus
publish_all b [] bus = bus
publish_all b (c ∷ calls) bus =
    publish_all b calls (publish_event b c.now c.topic c.event_type c.payload c.key bus)

absent_stays :
    (b : Broker) (calls : List Call) (bus : Bus)
    → bus.producer ≡ absent
    → (publish_all b calls bus).delivered ≡ bus.delivered
unfolding publish_event get_producer publish_message
absent_stays b [] bus gone = refl
absent_stays b (c ∷ calls) bus gone =
    rw
      (
        absent_stays b calls (publish_event b c.now c.topic c.event_type c.payload c.key bus)
            (rw gone refl),
        gone,
      )
      refl

-- If the broker cannot be reached when the first event is published, neither that event nor any
-- later one is delivered by the process, whenever the broker comes back.
pub outage_is_permanent :
    (b : Broker) (first : Call) (calls : List Call) (bus : Bus)
    → bus.producer ≡ uncalled
    → b.connects first.now ≡ false
    → (publish_all b (first ∷ calls) bus).delivered ≡ bus.delivered
unfolding publish_event get_producer build_producer publish_message
outage_is_permanent b first calls bus new down = elim (Bool-cases b.producer_enabled) [
  | inl on ↦ absent_stays b calls _ (rw (new, on, down) refl) ∙ rw (new, on, down) refl
  | inr off ↦ absent_stays b calls _ (rw (new, off) refl) ∙ rw (new, off) refl
]

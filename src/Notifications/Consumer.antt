-- ===== src/Notifications/Consumer.antt =====
-- services/notification_service/app/kafka/consumer.py
pub mod Delivery
pub mod Events
pub mod Faults
use orbit_commerce_platform.Notifications.Manager.{Socket, Connections, broadcast}
use orbit_commerce_platform.Catalog.Models.{Time}
use orbit_commerce_platform.Notifications.Store.{Redis, append}
use orbit_commerce_platform.Prelude.{
  ℕ, ℤ, Text, Bool, List, Option, ◌≡◌, ◌∷◌, [], ◌++◌, ◌&&◌, if◌then◌else◌, true, false, none, some,
  codes, pos_part, text_eq, ◌==◌, not, neg_part, map,
}

mutual
  -- What `json.loads` returns; the number with a fraction is left out, since no payload has one.
  pub data Json : Type 0 where
    null : Json
    boolean : Bool → Json
    number : ℤ → Json
    text : Text → Json
    array : Elements → Json
    object : Fields → Json

  pub data Elements : Type 0 where
    nil : Elements
    cons : Json → Elements → Elements

  pub data Fields : Type 0 where
    empty : Fields
    field : Text → Json → Fields → Fields

-- `dict.get` on the fields as they were decoded, in which each key stands once.
unfoldable pub get : Text → Fields → Option Json
get k empty = none
get k (field j v rest) = if text_eq j k then some v else get k rest

unfoldable pub or_default : Option Json → Json → Json
or_default none d = d
or_default (some v) d = v

-- Whether Python takes the value for true.
unfoldable pub truthy : Option Json → Bool
truthy none = false
truthy (some null) = false
truthy (some (boolean b)) = b
truthy (some (number n)) = if pos_part n == 0 then not (neg_part n == 0) else true
truthy (some (text [])) = false
truthy (some (text (c ∷ cs))) = true
truthy (some (array nil)) = false
truthy (some (array (cons v vs))) = true
truthy (some (object empty)) = false
truthy (some (object (field k v rest))) = true

unfoldable pub starts_with : Text → Text → Bool
starts_with [] s = true
starts_with (c ∷ cs) [] = false
starts_with (c ∷ cs) (x ∷ xs) = c == x && starts_with cs xs

-- `_recipient_for`: `none` is an AttributeError, of a type that has no `startswith`, or of data
-- that has no `get`.
pub recipient_in : Option Json → Json
recipient_in found = if truthy found then or_default found null else text (codes "ops")

unfoldable pub recipient_of_data : Json → Option Json
unfolding recipient_in get
recipient_of_data (object fields) = some (recipient_in (get (codes "customer_id") fields))
recipient_of_data _ = none

unfoldable pub recipient_for : Json → Json → Option Json
unfolding starts_with recipient_of_data
recipient_for (text event_type) data' =
    if starts_with (codes "order.") event_type
    then recipient_of_data data'
    else some (text (codes "ops"))
recipient_for _ data' = none

pub record Notification : Type 0 where
  pub id : ℕ
  pub event_type : Json
  pub payload : Json

-- The history in Redis, the sockets, and what each socket was sent.
pub record State (r : Redis Notification) : Type 0 where
  pub history : r.Data
  pub connections : Connections
  pub sent : List (Socket × Notification)

-- A message as it comes from the topic, with the key that `uuid4` will give and the time. The
-- value is `none` if it does not decode.
pub record Incoming : Type 0 where
  pub value : Option Json
  pub fresh : ℕ
  pub now : Time

-- `connections.get` raises a TypeError for a key that is no hashable value.
pub is_hashable : Json → Bool
is_hashable (array xs) = false
is_hashable (object fields) = false
is_hashable _ = true

-- What a step comes to is whether it returned, and the state that is left where it raised as well.
-- `formatted` is how an f-string writes a value that is no text.
module _ (r : Redis Notification) (ttl_seconds : ℕ) (sends : Socket → Notification → Bool)
    (formatted : Json → Text) where
  -- `notification_store.append` and `connection_manager.broadcast`.
  unfoldable pub deliver : Time → Text → Notification → State r → State r
  deliver now recipient n s =
      let (took, connections) = broadcast sends recipient n s.connections in
      record {
        history = append r ttl_seconds now recipient n s.history;
        connections = connections;
        sent = s.sent ++ map (λ socket. (socket, n)) took;
      }

  -- The same for a recipient that is no text: no socket is kept under it.
  unfoldable pub deliver_odd : Time → Json → Notification → State r → Bool × State r
  unfolding is_hashable
  deliver_odd now v n s =
      (is_hashable v, record s { history = append r ttl_seconds now (formatted v) n s.history })

  unfoldable pub deliver_to : Option Json → Incoming → Notification → State r → Bool × State r
  unfolding deliver deliver_odd
  deliver_to none m n s = (false, s)
  deliver_to (some (text recipient)) m n s = (true, deliver m.now recipient n s)
  deliver_to (some v) m n s = deliver_odd m.now v n s

  unfoldable pub handle_fields : Incoming → Fields → State r → Bool × State r
  unfolding deliver_to recipient_for get or_default
  handle_fields m fields s =
      let event_type = or_default (get (codes "event_type") fields) (text (codes "unknown")) in
      let payload = or_default (get (codes "data") fields) (object empty) in
      deliver_to (recipient_for event_type payload) m
        (record { id = m.fresh; event_type = event_type; payload = payload }) s

  -- After decoding: a value that is not an object has no `get`.
  unfoldable pub handle_value : Incoming → Option Json → State r → Bool × State r
  unfolding handle_fields
  handle_value m none s = (true, s)
  handle_value m (some (object fields)) s = handle_fields m fields s
  handle_value m (some _) s = (false, s)

  -- `_handle_message`
  unfoldable pub handle_message : Incoming → State r → Bool × State r
  unfolding handle_value
  handle_message m s = handle_value m m.value s

  -- The loop of `_run`: whether the consumer is still running, and the state. An exception ends
  -- the loop, stops the consumer and leaves `_task` failed.
  unfoldable pub run_next : Bool × State r → (State r → Bool × State r) → Bool × State r
  run_next (false, s) rest = (false, s)
  run_next (true, s) rest = rest s

  unfoldable pub run_loop : List Incoming → State r → Bool × State r
  unfolding handle_message run_next
  run_loop [] s = (true, s)
  run_loop (m ∷ rest) s = run_next (handle_message m s) (λ s'. run_loop rest s')

-- ===== src/Orders/Announced/Later.antt =====
-- What the customer of an order is told of its payment and of its cancellation.
use orbit_commerce_platform.Notifications.Listing.Customers.{CustomersListed}
use orbit_commerce_platform.Orders.Race.Counts.{Post-ok}
use orbit_commerce_platform.Notifications.Manager.{Socket}
use orbit_commerce_platform.Notifications.Consumer.{starts_with, Notification, Json, State}
use orbit_commerce_platform.Notifications.Store.{Redis, IsRedis}
use orbit_commerce_platform.Orders.Up.Transitions.{commit_items-StaysUp, release_items-StaysUp}
use orbit_commerce_platform.Orders.Up.{save_order-StaysUp}
use orbit_commerce_platform.Common.Kafka.Delivery.{publish_event-present}
use orbit_commerce_platform.Platform.Post.{Post, >>=-Post}
use orbit_commerce_platform.Orders.Models.{Order, paid, OrderItem, cancelled}
use orbit_commerce_platform.Common.Exceptions.{Result, ok}
use orbit_commerce_platform.Orders.Services.{
  mark_order_paid, cancel_pending, mark_order_paid_body, order_event_payload, save_order,
  commit_items, cancel_order, cancel_order_body, release_items, is_pending,
}
use orbit_commerce_platform.Common.Kafka.{Message, present}
use orbit_commerce_platform.Catalog.Models.{Time, Uuid}
use orbit_commerce_platform.Platform.Env.{Env}
use orbit_commerce_platform.Orders.Race.{Action, pays, cancels, act}
use orbit_commerce_platform.Platform.Up.{IsUp, StaysUp}
use orbit_commerce_platform.Orders.Announced.{
  Announced, Anyhow, StaysUp-Post, settled, order_message, message_Shown, Shown,
}
use orbit_commerce_platform.Platform.Exec.{Exec, ◌>>◌, ◌>>=◌, pure, World, publish}
use orbit_commerce_platform.Prelude.{
  ℤ, ◌≡◌, ◌≢◌, ◌≤◌, ◌<◌, ◌∷◌, ◌++◌, [], ℕ, Bool, true, List, Text, some, refl, codes, String,
  Bool-cases, inl, inr,
}

abbrev pub kind_of : Action → String
kind_of pays = "order.paid"
kind_of cancels = "order.cancelled"

module _ {e : Env} (takes : (t : Time) (m : Message) → e.broker.sends t m ≡ true) (id : Uuid) where
  abbrev Ends : String → Result Order × World e → Type 0
  Ends kind out = Post (λ o w. Announced kind id o w) Anyhow out

  publish-Ends :
      (kind : String) (o : Order) (w : World e)
      → IsUp w
      → Ends kind ((publish e.order_topic kind (some id) (order_event_payload id o) >> pure o) w)
  publish-Ends kind o w up = (
    w.bus.delivered,
    publish_event-present e.broker w.bus w.now e.order_topic kind (order_event_payload id o)
        (some id) up (takes w.now _),
  )

  then_Ends :
      {A : Type 0} (kind : String) (m : Exec e A) (f : A → Exec e Order) (w : World e)
      → StaysUp m
      → IsUp w
      → ((a : A) (w' : World e) → IsUp w' → Ends kind (f a w'))
      → Ends kind ((m >>= f) w)
  then_Ends kind m f w keeps up rest =
      >>=-Post (λ a w'. IsUp w') Anyhow (λ o w'. Announced kind id o w') Anyhow f m w rest
        (λ x w' h. h) (StaysUp-Post m w keeps up)

  paid-Ends : (o : Order) (w : World e) → IsUp w → Ends "order.paid" (mark_order_paid id o w)
  unfolding mark_order_paid mark_order_paid_body
  paid-Ends o w up =
      let o' : Order = record o { status = paid; updated_at = w.now } in
      let set : Order → Order = λ row. record row { status = paid; updated_at = w.now } in
      let tell : Exec e Order =
        publish e.order_topic "order.paid" (some id) (order_event_payload id o') >> pure o' in
      let out = mark_order_paid_body id o w in
      settled (λ o w'. Announced "order.paid" id o w') w.rows out.0 out.1
        (then_Ends "order.paid" (save_order id set)
          (λ _ w1. (commit_items (e.items w1.rows id) >> tell) w1) w (save_order-StaysUp id set) up
          (λ _ w1 up1.
            then_Ends "order.paid" (commit_items (e.items w1.rows id)) (λ _. tell) w1
              (commit_items-StaysUp (e.items w1.rows id)) up1
              (λ _ w2 up2. publish-Ends "order.paid" o' w2 up2)))

  pending-Ends : (o : Order) (w : World e) → IsUp w → Ends "order.cancelled" (cancel_pending id o w)
  unfolding cancel_pending
  pending-Ends o w up =
      let items : List OrderItem = e.items w.rows id in
      let set : Time → Order → Order =
        λ now row. record row { status = cancelled; updated_at = now } in
      let cancelled_at : Time → Order = λ now. record o { status = cancelled; updated_at = now } in
      let tell : Time → Exec e Order = λ now.
        publish e.order_topic "order.cancelled" (some id)
          (order_event_payload id (cancelled_at now))
        >> pure (cancelled_at now) in
      then_Ends "order.cancelled" (release_items items)
        (λ _ w1. (save_order id (set w1.now) >> tell w1.now) w1) w (release_items-StaysUp items) up
        (λ _ w1 up1.
          then_Ends "order.cancelled" (save_order id (set w1.now)) (λ _. tell w1.now) w1
            (save_order-StaysUp id (set w1.now)) up1
            (λ _ w2 up2. publish-Ends "order.cancelled" (cancelled_at w1.now) w2 up2))

  cancelled-Ends : (o : Order) (w : World e) → IsUp w → Ends "order.cancelled" (cancel_order id o w)
  unfolding cancel_order cancel_order_body
  cancelled-Ends o w up =
      let out = cancel_order_body id o w in
      settled (λ o w'. Announced "order.cancelled" id o w') w.rows out.0 out.1
        (elim (Bool-cases (is_pending o.status)) [
          | inl open_yet ↦ rw open_yet (pending-Ends o w up)
          | inr no_longer ↦ rw no_longer refl
        ])

  pub act-Ends : (a : Action) (o : Order) (w : World e) → IsUp w → Ends (kind_of a) (act a id o w)
  unfolding act
  act-Ends pays o w up = paid-Ends o w up
  act-Ends cancels o w up = cancelled-Ends o w up

of_orders : (a : Action) → starts_with (codes "order.") (codes (kind_of a)) ≡ true
unfolding starts_with
of_orders pays = refl
of_orders cancels = refl

module _ (str : Uuid → Text) (money : ℤ → Text) (r : Redis Notification) (laws : IsRedis r)
    (ttl_seconds : ℕ) (sends : Socket → Notification → Bool) (formatted : Json → Text) where
  -- From the call of `mark_order_paid`, or of `cancel_order`, to the customer's list, with the
  -- producer up and a broker that takes every message. A call that returns has delivered a last
  -- message, "order.paid" or "order.cancelled", about the order as it returned it, and when the
  -- consumer handles the message, the list of the order's customer, with any limit that is
  -- allowed, is answered and begins with its event, data and time. Entries live for some time, the
  -- customer's key is written in some letters that are not "ops", and what the history already
  -- holds under the keys of customers can be listed, as after any run of the consumer
  -- (`run_loop-CustomersListed`).
  pub act-Shown :
      {e : Env} (takes : (t : Time) (m : Message) → e.broker.sends t m ≡ true) (a : Action)
      (id : Uuid) (o o' : Order) (w : World e) (fresh : ℕ) (now : Time) (limit : ℕ) (s : State r)
      → w.bus.producer ≡ present
      → (act a id o w).0 ≡ ok o'
      → str o'.customer ≢ []
      → str o'.customer ≢ codes "ops"
      → CustomersListed r laws ttl_seconds now s.history
      → 0 < ttl_seconds
      → 1 ≤ limit
      → limit ≤ 100
      → let w' = (act a id o w).1 in
        (before : List Message) × ((m : Message) × (w'.bus.delivered ≡ before ++ m ∷ [])
          × (m.event_type ≡ kind_of a)
          × (m.payload ≡ order_event_payload id o')
          × Shown str money r laws ttl_seconds sends formatted m
              (str o'.customer)
              fresh
              now
              limit
              s)
  act-Shown {e} takes a id o o' w fresh now limit s up returned there person listable lives least
        most =
      let (before, delivered) =
        Post-ok (λ x w'. Announced (kind_of a) id x w') Anyhow (act a id o w) o' returned
          (act-Ends takes id a o w up) in
      (
        before,
        (
          order_message e (kind_of a) id o',
          delivered,
          refl,
          refl,
          message_Shown str money r laws ttl_seconds sends formatted
              (order_message e (kind_of a) id o') id o' fresh now limit s refl (of_orders a) there
              person listable lives least most,
        ),
      )

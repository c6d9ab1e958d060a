-- ===== src/Orders/Announced.antt =====
-- From orders/services.py through common/kafka.py, the topic and the consumer to the list of
-- notifications: what the customer of an order is told of its placement.
pub mod Later
use orbit_commerce_platform.Notifications.Listing.Customers.{
  CustomersListed, notifications_out-All, All-take,
}
use orbit_commerce_platform.Notifications.Listing.{
  notifications_out, NotificationOut, notification_out, listed, validated, in_front, answer,
  list_notifications,
}
use mathlib.Core.Path.{subst}
use orbit_commerce_platform.Orders.Place.{Created, place_order_atomic}
use orbit_commerce_platform.Notifications.Store.Feed.{append-entries}
use orbit_commerce_platform.Orders.Race.Counts.{Post-ok}
use orbit_commerce_platform.Notifications.Consumer.Events.{
  arrival, notification_of, delivered_to, payload_fields,
}
use orbit_commerce_platform.Notifications.Manager.{Socket}
use orbit_commerce_platform.Notifications.Consumer.{
  Notification, Json, Incoming, State, handle_message, starts_with, deliver,
}
use orbit_commerce_platform.Notifications.Store.{Redis, IsRedis, list_recent, last_of, history_key}
use orbit_commerce_platform.Common.Kafka.Delivery.{publish_event-present}
use orbit_commerce_platform.Orders.Services.{
  Line, place_order, order_event_payload, place_order_body, save_order, place_lines, create_order,
}
use orbit_commerce_platform.Orders.Models.{Order}
use orbit_commerce_platform.Common.Kafka.{Message, present}
use orbit_commerce_platform.Platform.Post.{Post, >>=-Post, SameRows}
use orbit_commerce_platform.Catalog.Models.{Time, Uuid}
use orbit_commerce_platform.Platform.Exec.{Exec, World, settle, publish, ◌>>◌, pure, ◌>>=◌}
use orbit_commerce_platform.Common.Exceptions.{Result, Error, ok, err}
use orbit_commerce_platform.Platform.Env.{Env, IsDatabase}
use orbit_commerce_platform.Platform.Up.{StaysUp, IsUp}
use orbit_commerce_platform.Orders.Up.{
  place_lines-StaysUp, create_order-StaysUp, save_order-StaysUp,
}
use orbit_commerce_platform.Prelude.{
  ◌∙◌, sym, ap, ◌+◌, ◌≡◌, ◌≢◌, ◌≤◌, ◌<◌, ◌∷◌, ◌++◌, [], ℕ, Bool, true, List, Option, Text, some,
  none, refl, codes, pos, String, ℤ, arith, suc, zero, leb, take, ltb-true, append-cancel,
}

abbrev pub order_message : (e : Env) → String → Uuid → Order → Message
order_message e kind id o = record {
  topic = e.order_topic;
  key = some id;
  event_type = kind;
  payload = order_event_payload id o;
}

-- The last message that was delivered is about the order.
abbrev pub Announced : {e : Env} → String → Uuid → Order → World e → Type 0
Announced {e} kind id o w =
    (before : List Message) × (w.bus.delivered ≡ before ++ order_message e kind id o ∷ [])

abbrev pub Anyhow : {e : Env} → Error → World e → Type 0
Anyhow x w = true ≡ true

module _ {e : Env} {A : Type 0} where
  outcome-IsUp : (out : Result A × World e) → IsUp out.1 → Post (λ a w'. IsUp w') Anyhow out
  outcome-IsUp (ok a, w) up = up
  outcome-IsUp (err x, w) up = refl

  pub StaysUp-Post :
      (m : Exec e A) (w : World e) → StaysUp m → IsUp w → Post (λ a w'. IsUp w') Anyhow (m w)
  StaysUp-Post m w keeps up = outcome-IsUp (m w) (keeps w up)

  pub settled :
      (P : A → World e → Type 0) (before : e.Rows) (r : Result A) (w : World e)
      → Post P Anyhow (r, w)
      → Post P Anyhow (settle before r w)
  settled P before (ok a) w h = h
  settled P before (err x) w h = refl

module _ {e : Env} (takes : (t : Time) (m : Message) → e.broker.sends t m ≡ true)
    (id customer : Uuid) (lines : List Line) where
  -- What `place_order` does once its lines are reserved.
  abbrev finish : Order → ℤ → Exec e Order
  finish o total = do
    save_order id (λ row. record row { total_amount = total })
    let placed = record o { total_amount = total }
    publish e.order_topic "order.created" (some id) (order_event_payload id placed)
    pure placed

  finish-Announced :
      (o : Order) (total : ℤ) (w : World e)
      → IsUp w
      → Post (λ o' w'. Announced "order.created" id o' w') Anyhow (finish o total w)
  finish-Announced o total w up =
      let placed : Order = record o { total_amount = total } in
      let save : Exec e Unit = save_order id (λ row. record row { total_amount = total }) in
      >>=-Post (λ a w'. IsUp w') Anyhow (λ o' w'. Announced "order.created" id o' w') Anyhow
        (λ _.
          publish e.order_topic "order.created" (some id) (order_event_payload id placed)
          >> pure placed)
        save w
        (λ _ w' up'. (
          w'.bus.delivered,
          publish_event-present e.broker w'.bus w'.now e.order_topic "order.created"
              (order_event_payload id placed) (some id) up' (takes w'.now _),
        ))
        (λ x w' h. h)
        (StaysUp-Post save w (save_order-StaysUp id (λ row. record row { total_amount = total }))
          up)

  pub place_order-Announced :
      (w : World e)
      → IsUp w
      → Post (λ o w'. Announced "order.created" id o w') Anyhow (place_order id customer lines w)
  unfolding place_order place_order_body
  place_order-Announced w up =
      let Q : Order → World e → Type 0 = λ o w'. Announced "order.created" id o w' in
      let out = place_order_body id customer lines w in
      settled Q w.rows out.0 out.1 (
        >>=-Post (λ a w'. IsUp w') Anyhow Q Anyhow
          (λ o. do total ← place_lines id lines (pos 0); finish o total) (create_order id customer)
          w
          (λ o w1 up1.
            >>=-Post (λ a w'. IsUp w') Anyhow Q Anyhow (finish o) (place_lines id lines (pos 0)) w1
              (λ total w2 up2. finish-Announced o total w2 up2) (λ x w' h. h)
              (StaysUp-Post (place_lines id lines (pos 0)) w1 (place_lines-StaysUp id lines (pos 0))
                up1))
          (λ x w' h. h)
          (StaysUp-Post (create_order id customer) w (create_order-StaysUp id customer) up))

module _ (str : Uuid → Text) (money : ℤ → Text) (r : Redis Notification) (laws : IsRedis r)
    (ttl_seconds : ℕ) (sends : Socket → Notification → Bool) (formatted : Json → Text) where
  -- What the customer's list shows of the message.
  abbrev pub shown : Message → ℕ → Time → NotificationOut
  shown m fresh now = record {
    id = fresh;
    event_type = codes m.event_type;
    payload = payload_fields str money m.payload;
    received_at = now;
  }

  -- The message is handled, and then the customer's list is answered and begins with it.
  abbrev pub Shown : Message → Text → ℕ → Time → ℕ → State r → Type 0
  Shown m customer fresh now limit s =
      (s' : State r) × (handle_message r ttl_seconds sends formatted (arrival str money m fresh now)
          s
        ≡ (true, s'))
      × ((older : List NotificationOut) × (list_notifications r ttl_seconds now customer limit
              s'.history
            ≡ listed (shown m fresh now ∷ older)))

  not_of_ops :
      (customer : Text) → customer ≢ codes "ops" → history_key customer ≢ history_key (codes "ops")
  unfolding history_key
  not_of_ops customer ne same =
      ne (append-cancel (codes "notifications:") customer (codes "ops") same)

  pub message_Shown :
      (m : Message) (id : Uuid) (o : Order) (fresh : ℕ) (now : Time) (limit : ℕ) (s : State r)
      → m.payload ≡ order_event_payload id o
      → starts_with (codes "order.") (codes m.event_type) ≡ true
      → str o.customer ≢ []
      → str o.customer ≢ codes "ops"
      → CustomersListed r laws ttl_seconds now s.history
      → 0 < ttl_seconds
      → 1 ≤ limit
      → limit ≤ 100
      → Shown m (str o.customer) fresh now limit s
  unfolding order_event_payload list_notifications list_recent last_of deliver notifications_out
      notification_out validated in_front answer
  message_Shown m id o fresh now zero s about named there person listable lives least most =
      ground arith
  message_Shown m id o fresh now (suc limit) s about named there person listable lives least most =
      let n : Notification = notification_of str money m fresh in
      let key : Text = history_key (str o.customer) in
      let rest : List Notification = take limit (take 99 (r.entries now key s.history)) in
      let at_least : leb 1 (suc limit) ≡ true = ground arith in
      let at_most : leb (suc limit) 100 ≡ true = ground arith in
      let (older, made) =
        notifications_out-All now rest (
          All-take limit _
            (All-take 99 _ (listable now (omega arith) key (not_of_ops _ person)))) in
      (
        deliver r ttl_seconds sends formatted now (str o.customer) n s,
        delivered_to str money r laws ttl_seconds sends formatted m (order_event_payload id o) fresh
            now s about (named, there),
        (
          older,
          rw
              (
                at_least,
                at_most,
                laws.lrange_lem,
                append-entries r laws ttl_seconds (str o.customer) now now n s.history
                    (omega arith),
                ltb-true now (now + ttl_seconds) (omega (arith, lives)),
                made,
              )
              refl,
        ),
      )

  -- From the call of `place_order` to the customer's list, with the producer up and a broker that
  -- takes every message. A placement that returns has delivered a last message, and when the
  -- consumer handles it, the list of the customer who placed the order, with any limit that is
  -- allowed, is answered and begins with its event, data and time. Entries live for some time, the
  -- customer's key is written in some letters that are not "ops", what the history already holds
  -- under the keys of customers can be listed, as after any run of the consumer
  -- (`run_loop-CustomersListed`), and no item refers to an order that is not there.
  pub place_order-Shown :
      {e : Env} (db : IsDatabase e) (takes : (t : Time) (m : Message) → e.broker.sends t m ≡ true)
      (id customer : Uuid) (lines : List Line) (w : World e) (o : Order) (fresh : ℕ) (now : Time)
      (limit : ℕ) (s : State r)
      → w.bus.producer ≡ present
      → (e.order w.rows id ≡ none → e.items w.rows id ≡ [])
      → (place_order id customer lines w).0 ≡ ok o
      → str customer ≢ []
      → str customer ≢ codes "ops"
      → CustomersListed r laws ttl_seconds now s.history
      → 0 < ttl_seconds
      → 1 ≤ limit
      → limit ≤ 100
      → let w' = (place_order id customer lines w).1 in
        (before : List Message) × ((m : Message) × (w'.bus.delivered ≡ before ++ m ∷ [])
          × (m.payload ≡ order_event_payload id o)
          × Shown m (str customer) fresh now limit s)
  unfolding starts_with
  place_order-Shown {e} db takes id customer lines w o fresh now limit s up no_orphans returned
        there person listable lives least most =
      let out = place_order id customer lines w in
      let (before, delivered) =
        Post-ok (λ o' w'. Announced "order.created" id o' w') Anyhow out o returned
          (place_order-Announced takes id customer lines w up) in
      let created =
        Post-ok (Created id customer lines w) (SameRows w) out o returned
          (place_order_atomic db id customer lines w no_orphans) in
      let m : Message = order_message e "order.created" id o in
      let theirs : str o.customer ≡ str customer = ap str created.owner in
      (
        before,
        (
          m,
          delivered,
          refl,
          subst (λ c. Shown m c fresh now limit s) theirs
              (message_Shown m id o fresh now limit s refl refl (λ h. there (sym theirs ∙ h))
                (λ h. person (sym theirs ∙ h)) listable lives least most),
        ),
      )

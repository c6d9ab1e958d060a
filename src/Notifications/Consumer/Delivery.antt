-- ===== src/Notifications/Consumer/Delivery.antt =====
-- What app/kafka/consumer.py does with a stream of messages.
use orbit_commerce_platform.Notifications.Store.Feed.{append_other}
use orbit_commerce_platform.Catalog.Models.{Time}
use orbit_commerce_platform.Notifications.Manager.Fanout.{live, broadcast_exact}
use orbit_commerce_platform.Notifications.Manager.{Socket, contains, broadcast}
use orbit_commerce_platform.Notifications.Consumer.{
  null, number, array, boolean, or_default, run_loop, Notification, Json, Incoming, State,
  handle_message, handle_value, Fields, recipient_for, truthy, object, boolean, deliver, get,
  number, text, starts_with, array, run_next,
}
use orbit_commerce_platform.Notifications.Store.{Redis, IsRedis, append, history_key}
use orbit_commerce_platform.Prelude.{
  ◌∙◌, ℕ, Text, Bool, List, ◌≡◌, ◌≢◌, ◌∷◌, [], ◌++◌, filter, map, none, some, true, false, refl,
  codes, ap, inl, inr, ◌∙◌, arith, ◌⊎◌,
}

pub order_recipient :
    (data' : Fields) (kind c : Text) (x : ℕ)
    → starts_with (codes "order.") kind ≡ true
    → get (codes "customer_id") data' ≡ some (text (x ∷ c))
    → recipient_for (text kind) (object data') ≡ some (text (x ∷ c))
unfolding recipient_for truthy or_default
order_recipient data' kind c x order customer = rw (order, customer) refl

module _ (r : Redis Notification) (laws : IsRedis r) (ttl_seconds : ℕ)
    (sends : Socket → Notification → Bool) (formatted : Json → Text) where
  -- The event of an order, with the customer `c` in its data, is added to the history of `c`
  -- and sent to the sockets of `c` that work. The history of every other recipient stays as it
  -- was, and so do their sockets.
  pub order_event_private :
      (m : Incoming) (s : State r) (fields data' : Fields) (kind c : Text) (x : ℕ)
      → m.value ≡ some (object fields)
      → get (codes "event_type") fields ≡ some (text kind)
      → starts_with (codes "order.") kind ≡ true
      → get (codes "data") fields ≡ some (object data')
      → get (codes "customer_id") data' ≡ some (text (x ∷ c))
      → let n : Notification = record {
        id = m.fresh;
        event_type = text kind;
        payload = object data';
      } in
        (s' : State r) × (handle_message r ttl_seconds sends formatted m s ≡ (true, s'))
        × (s'.history ≡ append r ttl_seconds m.now (x ∷ c) n s.history)
        × (s'.sent
            ≡ s.sent
              ++ map (λ socket. (socket, n)) (filter (λ k. sends k n) (live (x ∷ c) s.connections)))
        × ((other : Text) (t : Time) (y : Socket)
            → (x ∷ c) ≢ other
            → (r.entries t (history_key other) s'.history
                ≡ r.entries t (history_key other) s.history)
              × (contains y (live other s'.connections) ≡ contains y (live other s.connections)))
  unfolding handle_message deliver or_default append broadcast
  order_event_private m s fields data' kind c x value event order payload customer =
      let n : Notification = record {
        id = m.fresh;
        event_type = text kind;
        payload = object data';
      } in
      let exact = broadcast_exact sends (x ∷ c) n s.connections in
      (
        deliver r ttl_seconds sends formatted m.now (x ∷ c) n s,
        rw (value, event, payload, order_recipient data' kind c x order customer) refl,
        refl,
        ap (λ l. s.sent ++ map (λ socket. (socket, n)) l) exact.0,
        λ other t y ne. (
          append_other r laws ttl_seconds (x ∷ c) m.now t other n s.history ne,
          exact.2 other y ne,
        ),
      )

-- Whether a step returned, with the state that it left.
pub step_cases :
    {A : Type 0} (p : Bool × A) → ((a : A) × (p ≡ (false, a))) ⊎ ((a : A) × (p ≡ (true, a)))
step_cases (false, a) = inl (a, refl)
step_cases (true, a) = inr (a, refl)

module _ (r : Redis Notification) (ttl_seconds : ℕ) (sends : Socket → Notification → Bool)
    (formatted : Json → Text) where
  not_object :
      (m : Incoming) (v : Json) (s : State r)
      → ((fields : Fields) → v ≢ object fields)
      → handle_value r ttl_seconds sends formatted m (some v) s ≡ (false, s)
  unfolding handle_value
  not_object m null s ne = refl
  not_object m (boolean b) s ne = refl
  not_object m (number z) s ne = refl
  not_object m (text b) s ne = refl
  not_object m (array b) s ne = refl
  not_object m (object fields) s ne = absurd (ne fields refl)

  refused :
      (m : Incoming) (v : Json) (s : State r)
      → m.value ≡ some v
      → ((fields : Fields) → v ≢ object fields)
      → handle_message r ttl_seconds sends formatted m s ≡ (false, s)
  unfolding handle_message
  refused m v s value ne =
      ap (λ o. handle_value r ttl_seconds sends formatted m o s) value ∙ not_object m v s ne

  -- A message that is JSON but not an object ends the consumer: the messages before it have been
  -- handled, and none after it ever is.
  pub run_stops :
      (before rest : List Incoming) (m : Incoming) (v : Json) (s s' : State r)
      → run_loop r ttl_seconds sends formatted before s ≡ (true, s')
      → m.value ≡ some v
      → ((fields : Fields) → v ≢ object fields)
      → run_loop r ttl_seconds sends formatted (before ++ m ∷ rest) s ≡ (false, s')
  unfolding run_loop run_next
  run_stops [] rest m v s s' done value ne =
      rw (refused m v s value ne) (ap (λ p. (false, p.1)) done)
  run_stops (b ∷ before) rest m v s s' done value ne =
      elim (step_cases (handle_message r ttl_seconds sends formatted b s)) [
        | inl (s1, raised) ↦
            let no : false ≡ true = ap (λ p. p.0) (rw (run_loop, raised) at done) in ground arith
        | inr (s1, handled) ↦
            rw (handled) (run_stops before rest m v s1 s' (rw (run_loop, handled) at done) value ne)
      ]

  -- A message that does not decode is dropped: the run is that of the other messages.
  pub run_skips :
      (before rest : List Incoming) (m : Incoming) (s : State r)
      → m.value ≡ none
      → run_loop r ttl_seconds sends formatted (before ++ m ∷ rest) s
        ≡ run_loop r ttl_seconds sends formatted (before ++ rest) s
  unfolding run_loop run_next handle_message handle_value
  run_skips [] rest m s value = rw value refl
  run_skips (b ∷ before) rest m s value =
      elim (step_cases (handle_message r ttl_seconds sends formatted b s)) [
        | inl (s1, raised) ↦ rw raised refl
        | inr (s1, handled) ↦ rw handled (run_skips before rest m s1 value)
      ]

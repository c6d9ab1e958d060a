-- ===== src/Notifications/Consumer/Faults/Stops.antt =====
-- A command of Redis that raises ends the consumer.
use orbit_commerce_platform.Notifications.Consumer.Delivery.{step_cases}
use orbit_commerce_platform.Catalog.Models.{Time}
use orbit_commerce_platform.Notifications.Consumer.Faults.{
  run_faulty, Fault, follow, route_to, handle_faulty, route_value, route, no_fault, stores,
  append_until, store_and_send, route_fields, lpush_fails, ltrim_fails, expire_fails, store_odd,
}
use orbit_commerce_platform.Notifications.Manager.{Socket}
use orbit_commerce_platform.Notifications.Consumer.{
  Notification, Json, Incoming, State, handle_value, run_next, handle_fields, run_loop, deliver_to,
  handle_message, null, boolean, number, text, array, object, recipient_for, or_default, get, empty,
}
use orbit_commerce_platform.Notifications.Store.{Redis}
use orbit_commerce_platform.Prelude.{
  ◌≡◌, ◌≢◌, ◌∷◌, ◌++◌, [], ℕ, Bool, Option, List, Text, some, none, map, true, ap, refl, false, ◌∙◌,
  fun_ext, inl, arith, inr, codes,
}

module _ (r : Redis Notification) (ttl_seconds : ℕ) (sends : Socket → Notification → Bool)
    (formatted : Json → Text) where
  by_target :
      (o : Option Json) (m : Incoming) (n : Notification) (s : State r)
      → follow r ttl_seconds sends formatted (route_to o n) no_fault m s
        ≡ deliver_to r ttl_seconds sends formatted o m n s
  unfolding follow deliver_to route_to store_odd
  by_target none m n s = refl
  by_target (some null) m n s = refl
  by_target (some (boolean b)) m n s = refl
  by_target (some (number z)) m n s = refl
  by_target (some (text recipient)) m n s = refl
  by_target (some (array xs)) m n s = refl
  by_target (some (object fields)) m n s = refl

  by_value :
      (v : Option Json) (m : Incoming) (s : State r)
      → follow r ttl_seconds sends formatted (route_value m v) no_fault m s
        ≡ handle_value r ttl_seconds sends formatted m v s
  unfolding handle_value follow handle_fields route_value route_fields
  by_value none m s = refl
  by_value (some null) m s = refl
  by_value (some (boolean b)) m s = refl
  by_value (some (number z)) m s = refl
  by_value (some (text t)) m s = refl
  by_value (some (array xs)) m s = refl
  by_value (some (object fields)) m s =
      let event_type = or_default (get (codes "event_type") fields) (text (codes "unknown")) in
      let payload = or_default (get (codes "data") fields) (object empty) in
      by_target (recipient_for event_type payload) m
        (record { id = m.fresh; event_type = event_type; payload = payload }) s

  -- With no fault the loop is the one of the model without faults.
  pub run_faulty-run_loop :
      (ms : List Incoming) (s : State r)
      → run_faulty r ttl_seconds sends formatted (map (λ m. (no_fault, m)) ms) s
        ≡ run_loop r ttl_seconds sends formatted ms s
  unfolding run_faulty run_loop handle_faulty handle_message
  run_faulty-run_loop [] s = refl
  run_faulty-run_loop (m ∷ ms) s =
      ap
        (λ out.
          run_next r ttl_seconds sends formatted out
            (λ s'. run_faulty r ttl_seconds sends formatted (map (λ x. (no_fault, x)) ms) s'))
        (by_value m.value m s)
      ∙ ap
          (run_next r ttl_seconds sends formatted
            (handle_value r ttl_seconds sends formatted m m.value s))
          (fun_ext (run_faulty-run_loop ms))

  by_fault :
      (fault : Fault) (now : Time) (recipient : Text) (n : Notification) (s : State r)
      → fault ≢ no_fault
      → store_and_send r ttl_seconds sends formatted fault now recipient n s ≡ (
        false,
        record s {
          history = append_until r ttl_seconds sends formatted fault now recipient n s.history;
        },
      )
  unfolding store_and_send
  by_fault no_fault now recipient n s faulty = absurd (faulty refl)
  by_fault lpush_fails now recipient n s faulty = refl
  by_fault ltrim_fails now recipient n s faulty = refl
  by_fault expire_fails now recipient n s faulty = refl

  module _ (fault : Fault) (m : Incoming) (rest : List (Fault × Incoming)) (recipient : Text)
      (n : Notification) (stored : route m ≡ stores recipient n) (faulty : fault ≢ no_fault) where
    refused :
        (s : State r)
        → handle_faulty r ttl_seconds sends formatted fault m s ≡ (
          false,
          record s {
            history = append_until r ttl_seconds sends formatted fault m.now recipient n s.history;
          },
        )
    unfolding handle_faulty follow
    refused s = rw stored (by_fault fault m.now recipient n s faulty)

    -- A fault while a notification is stored ends the loop: the notification goes to no socket,
    -- the commands before the fault have been carried out, and no later message is ever handled,
    -- however well Redis answers by then.
    pub fault_stops :
        (before : List (Fault × Incoming)) (s s' : State r)
        → run_faulty r ttl_seconds sends formatted before s ≡ (true, s')
        → run_faulty r ttl_seconds sends formatted (before ++ (fault, m) ∷ rest) s ≡ (
          false,
          record s' {
            history = append_until r ttl_seconds sends formatted fault m.now recipient n s'.history;
          },
        )
    unfolding run_faulty run_next
    fault_stops [] s s' done = rw (refused s) (
        ap
          (λ p. (
            false,
            record p.1 {
              history =
                  append_until r ttl_seconds sends formatted fault m.now recipient n p.1.history;
            },
          ))
          done)
    fault_stops ((f, b) ∷ before) s s' done =
        elim (step_cases (handle_faulty r ttl_seconds sends formatted f b s)) [
          | inl (s1, raised) ↦
              let no : false ≡ true = ap (λ p. p.0) (rw (run_faulty, raised) at done) in
              ground arith
          | inr (s1, handled) ↦
              rw (handled) (fault_stops before s1 s' (rw (run_faulty, handled) at done))
        ]

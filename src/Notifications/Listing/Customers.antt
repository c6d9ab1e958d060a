-- ===== src/Notifications/Listing/Customers.antt =====
-- services/notification_service/app/kafka/consumer.py and routers/notifications.py: which entries of
-- the histories that the consumer keeps can be listed.
use orbit_commerce_platform.Notifications.Consumer.Delivery.{step_cases}
use orbit_commerce_platform.Notifications.Manager.{Socket}
use orbit_commerce_platform.Notifications.Store.Feed.{append-entries}
use orbit_commerce_platform.Catalog.Models.{Time}
use orbit_commerce_platform.Notifications.Listing.{
  notifications_out, notification_out, validated, in_front, NotificationOut,
}
use orbit_commerce_platform.Notifications.Store.{Redis, IsRedis, append, history_key}
use orbit_commerce_platform.Notifications.Consumer.{
  Notification, recipient_for, text, recipient_of_data, Fields, object, Json, handle_value,
  Incoming, deliver_odd, deliver_to, starts_with, State, run_loop, handle_fields, deliver, run_next,
  handle_message, or_default, get,
}
use mathlib.Core.Option.{some-injective}
use orbit_commerce_platform.Notifications.Consumer.{
  null, boolean, number, array, text, object, empty,
}
use orbit_commerce_platform.Prelude.{
  none-ne-some, ◌+◌, ◌∙◌, ℕ, Text, Bool, List, Option, ◌≡◌, ◌≢◌, ◌≤◌, ◌∷◌, [], ◌⊎◌, none, some, inl,
  inr, refl, arith, zero, suc, codes, true, false, All, take, if◌then◌else◌, Bool-cases, text_eq,
  text_eq_sound, sym, ◌∙◌, ap, ltb,
}

abbrev pub CanBeListed : Notification → Type 0
CanBeListed n = ((t : Text) × (n.event_type ≡ text t)) × ((f : Fields) × (n.payload ≡ object f))

pub All-take : (k : ℕ) (ns : List Notification) → All CanBeListed ns → All CanBeListed (take k ns)
All-take zero ns all = tt
All-take (suc k) [] all = tt
All-take (suc k) (n ∷ ns) (this, all) = (this, All-take k ns all)

pub notifications_out-All :
    (now : Time) (ns : List Notification)
    → All CanBeListed ns
    → (outs : List NotificationOut) × (notifications_out now ns ≡ some outs)
unfolding notifications_out notification_out validated in_front
notifications_out-All now [] all = ([], refl)
notifications_out-All now (n ∷ ns) (((t, is_text), (f, is_object)), all) =
    let (outs, made) = notifications_out-All now ns all in
    (
      record { id = n.id; event_type = t; payload = f; received_at = now } ∷ outs,
      rw (is_text, is_object, made) refl,
    )

if_both :
    (b : Bool) (ns : List Notification)
    → All CanBeListed ns
    → All CanBeListed (if b then ns else [])
if_both true ns all = all
if_both false ns all = tt

data_is_object :
    (data' v : Json) → recipient_of_data data' ≡ some v → (f : Fields) × (data' ≡ object f)
unfolding recipient_of_data
data_is_object null v h = absurd (none-ne-some h)
data_is_object (boolean b) v h = absurd (none-ne-some h)
data_is_object (number z) v h = absurd (none-ne-some h)
data_is_object (text t) v h = absurd (none-ne-some h)
data_is_object (array xs) v h = absurd (none-ne-some h)
data_is_object (object f) v h = (f, refl)

-- Whoever is not "ops" is told of an event whose name is a text and whose data is an object.
recipient_for-cases :
    (kind data' v : Json)
    → recipient_for kind data' ≡ some v
    → (v ≡ text (codes "ops"))
      ⊎ (((t : Text) × (kind ≡ text t)) × ((f : Fields) × (data' ≡ object f)))
unfolding recipient_for
recipient_for-cases (text t) data' v h = elim (Bool-cases (starts_with (codes "order.") t)) [
  | inl order ↦ inr ((t, refl), data_is_object data' v (rw (order) at h))
  | inr other ↦ inl (sym (some-injective _ _ (rw (other) at h)))
]
recipient_for-cases null data' v h = absurd (none-ne-some h)
recipient_for-cases (boolean b) data' v h = absurd (none-ne-some h)
recipient_for-cases (number z) data' v h = absurd (none-ne-some h)
recipient_for-cases (array xs) data' v h = absurd (none-ne-some h)
recipient_for-cases (object f) data' v h = absurd (none-ne-some h)

text_injective : {s t : Text} → text s ≡ text t → s ≡ t
text_injective h = cc

module _ (r : Redis Notification) (laws : IsRedis r) (ttl_seconds : ℕ) where
  -- From `t0` on, all that stands under a key other than that of "ops" can be listed.
  abbrev pub CustomersListed : Time → r.Data → Type 0
  CustomersListed t0 d =
      (t : Time)
      → t0 ≤ t
      → (k : Text) → k ≢ history_key (codes "ops")
      → All CanBeListed (r.entries t k d)

  append_here :
      (t0 now t : Time) (recipient : Text) (n : Notification) (d : r.Data)
      → t0 ≤ now
      → now ≤ t
      → history_key recipient ≢ history_key (codes "ops")
      → CanBeListed n
      → CustomersListed t0 d
      → All CanBeListed
          (r.entries t (history_key recipient) (append r ttl_seconds now recipient n d))
  append_here t0 now t recipient n d le later customer can old =
      rw (append-entries r laws ttl_seconds recipient now t n d later) (
        if_both (ltb t (now + ttl_seconds)) (take 100 (n ∷ r.entries now (history_key recipient) d))
          (can, All-take 99 _ (old now le (history_key recipient) customer)))

  append-CustomersListed :
      (t0 now : Time) (recipient : Text) (n : Notification) (d : r.Data)
      → t0 ≤ now
      → (recipient ≡ codes "ops") ⊎ CanBeListed n
      → CustomersListed t0 d
      → CustomersListed now (append r ttl_seconds now recipient n d)
  unfolding append
  append-CustomersListed t0 now recipient n d le ok old t later k customer =
      elim (Bool-cases (text_eq (history_key recipient) k)) [
        | inr apart ↦
            rw
              (
                laws.expire_other now t (history_key recipient) k ttl_seconds _ apart,
                laws.ltrim_other now t (history_key recipient) k _ _ apart,
                laws.lpush_other now t (history_key recipient) k n d apart,
              )
              (old t (omega (arith, le, later)) k customer)
        | inl equal ↦
            let same = text_eq_sound (history_key recipient) k equal in
            elim ok [
              | inl is_ops ↦ absurd (customer (sym same ∙ ap history_key is_ops))
              | inr can ↦ rw (sym same) (
                  append_here t0 now t recipient n d le later (λ h. customer (sym same ∙ h)) can
                    old)
            ]
      ]

  module _ (sends : Socket → Notification → Bool) (formatted : Json → Text) where
    -- The messages come in the order of their times, the first not before `t0` and the last not
    -- after `until`.
    abbrev pub InOrder : Time → List Incoming → Time → Type 0
    InOrder t0 [] until = t0 ≤ until
    InOrder t0 (m ∷ rest) until = (t0 ≤ m.now) × InOrder m.now rest until

    within : (ms : List Incoming) (t0 until : Time) → InOrder t0 ms until → t0 ≤ until
    within [] t0 until order = order
    within (m ∷ ms) t0 until (le, order) = omega (arith, le, within ms m.now until order)

    abbrev Keeps : Time → Bool × State r → Type 0
    Keeps now out = CustomersListed now out.1.history

    later_Keeps :
        (t0 now : Time) (d : r.Data) → t0 ≤ now → CustomersListed t0 d → CustomersListed now d
    later_Keeps t0 now d le old t later = old t (omega (arith, le, later))

    odd_Keeps :
        (t0 : Time) (v : Json) (m : Incoming) (n : Notification) (s : State r)
        → t0 ≤ m.now
        → v ≢ text (codes "ops")
        → (v ≡ text (codes "ops")) ⊎ CanBeListed n
        → CustomersListed t0 s.history
        → Keeps m.now (deliver_odd r ttl_seconds sends formatted m.now v n s)
    unfolding deliver_odd
    odd_Keeps t0 v m n s le odd (inl is_ops) old = absurd (odd is_ops)
    odd_Keeps t0 v m n s le odd (inr can) old =
        append-CustomersListed t0 m.now (formatted v) n s.history le (inr can) old

    deliver_to-Keeps :
        (t0 : Time) (o : Option Json) (m : Incoming) (n : Notification) (s : State r)
        → t0 ≤ m.now
        → ((v : Json) → o ≡ some v → (v ≡ text (codes "ops")) ⊎ CanBeListed n)
        → CustomersListed t0 s.history
        → Keeps m.now (deliver_to r ttl_seconds sends formatted o m n s)
    unfolding deliver_to deliver
    deliver_to-Keeps t0 none m n s le ok old = later_Keeps t0 m.now s.history le old
    deliver_to-Keeps t0 (some (text recipient)) m n s le ok old =
        append-CustomersListed t0 m.now recipient n s.history le
          (elim (ok (text recipient) refl) [
            | inl is_ops ↦ inl (text_injective is_ops)
            | inr can ↦ inr can
          ])
          old
    deliver_to-Keeps t0 (some null) m n s le ok old =
        odd_Keeps t0 null m n s le (λ h. cc) (ok null refl) old
    deliver_to-Keeps t0 (some (boolean b)) m n s le ok old =
        odd_Keeps t0 (boolean b) m n s le (λ h. cc) (ok (boolean b) refl) old
    deliver_to-Keeps t0 (some (number z)) m n s le ok old =
        odd_Keeps t0 (number z) m n s le (λ h. cc) (ok (number z) refl) old
    deliver_to-Keeps t0 (some (array xs)) m n s le ok old =
        odd_Keeps t0 (array xs) m n s le (λ h. cc) (ok (array xs) refl) old
    deliver_to-Keeps t0 (some (object f)) m n s le ok old =
        odd_Keeps t0 (object f) m n s le (λ h. cc) (ok (object f) refl) old

    handle_value-Keeps :
        (t0 : Time) (o : Option Json) (m : Incoming) (s : State r)
        → t0 ≤ m.now
        → CustomersListed t0 s.history
        → Keeps m.now (handle_value r ttl_seconds sends formatted m o s)
    unfolding handle_value handle_fields
    handle_value-Keeps t0 none m s le old = later_Keeps t0 m.now s.history le old
    handle_value-Keeps t0 (some null) m s le old = later_Keeps t0 m.now s.history le old
    handle_value-Keeps t0 (some (boolean b)) m s le old = later_Keeps t0 m.now s.history le old
    handle_value-Keeps t0 (some (number z)) m s le old = later_Keeps t0 m.now s.history le old
    handle_value-Keeps t0 (some (text t)) m s le old = later_Keeps t0 m.now s.history le old
    handle_value-Keeps t0 (some (array xs)) m s le old = later_Keeps t0 m.now s.history le old
    handle_value-Keeps t0 (some (object fields)) m s le old =
        let kind = or_default (get (codes "event_type") fields) (text (codes "unknown")) in
        let payload = or_default (get (codes "data") fields) (object empty) in
        deliver_to-Keeps t0 (recipient_for kind payload) m
          (record { id = m.fresh; event_type = kind; payload = payload }) s le
          (λ v h. recipient_for-cases kind payload v h) old

    -- The messages come in the order of their times, and at first all that stands under a key
    -- other than that of "ops" can be listed. However the run ends, that is so afterwards.
    pub run_loop-CustomersListed :
        (ms : List Incoming) (t0 until : Time) (s : State r)
        → InOrder t0 ms until
        → CustomersListed t0 s.history
        → (t : Time) × (t ≤ until)
          × CustomersListed t (run_loop r ttl_seconds sends formatted ms s).1.history
    unfolding run_loop run_next handle_message
    run_loop-CustomersListed [] t0 until s order old = (t0, order, old)
    run_loop-CustomersListed (m ∷ ms) t0 until s (le, order) old =
        let kept = handle_value-Keeps t0 m.value m s le old in
        elim (step_cases (handle_value r ttl_seconds sends formatted m m.value s)) [
          | inl (s1, raised) ↦ rw (raised) (m.now, within ms m.now until order, rw (raised) at kept)
          | inr (s1, handled) ↦
              rw (handled) (run_loop-CustomersListed ms m.now until s1 order (rw (handled) at kept))
        ]

-- ===== src/Orders/Transitions.antt =====
-- `mark_order_paid` and `cancel_order` of orders/services.py: what they do when they return, and
-- that nothing has changed when they raise. The caller passes an instance `o`, which may differ
-- from the row.
use orbit_commerce_platform.Common.Exceptions.{err, not_cancellable}
use orbit_commerce_platform.Orders.Items.{
  Committed, commit_items-Committed, Released, release_items-Released,
}
use orbit_commerce_platform.Orders.Place.{Saved, save_order-Saved}
use orbit_commerce_platform.Platform.Post.{Post, SameRows, atomic-Post, >>=-Post, Clock, Post-map}
use orbit_commerce_platform.Orders.Counters.{reserved_at, units, quantity_at}
use orbit_commerce_platform.Orders.Services.{
  mark_order_paid, mark_order_paid_body, commit_items, order_event_payload, save_order,
  cancel_pending, cancel_order, cancel_order_body, release_items, is_pending,
}
use orbit_commerce_platform.Platform.Exec.{World, ◌>>=◌, gets, ◌>>◌, publish, pure}
use orbit_commerce_platform.Catalog.Models.{Uuid, Time}
use orbit_commerce_platform.Platform.Env.{Env, IsDatabase}
use orbit_commerce_platform.Orders.Models.{Status, Order, paid, cancelled, pending}
use orbit_commerce_platform.Prelude.{
  ℕ, ◌≡◌, some, ◌-◌, ◌==◌, false, ◌∙◌, refl, ==_refl, ◌≢◌, sym, arith, Bool-cases, ap, inl, true,
  inr,
}

-- The order `id` has gone to `to`, and its items have been taken off the reservations and, by
-- `taken`, off the stock on hand.
pub record Moved {e : Env} (to : Status) (taken : ℕ → ℕ) (id : Uuid) (o : Order) (w : World e)
    (o' : Order) (w' : World e) : Type 0 where
  pub result : o' ≡ record o { status = to; updated_at = w.now }
  pub was :
      (row : Order) × (e.order w.rows id ≡ some row)
      × (e.order w'.rows id ≡ some (record row { status = to; updated_at = w.now }))
  pub reserved : (p : Uuid) → reserved_at w' p ≡ reserved_at w p - units p (e.items w.rows id)
  pub quantity :
      (p : Uuid) → quantity_at w' p ≡ quantity_at w p - taken (units p (e.items w.rows id))
  pub orders : (j : Uuid) → (id == j) ≡ false → e.order w'.rows j ≡ e.order w.rows j
  pub items : (j : Uuid) → e.items w'.rows j ≡ e.items w.rows j
  pub clock : w'.now ≡ w.now

abbrev pub all_units : ℕ → ℕ
all_units n = n

abbrev pub no_units : ℕ → ℕ
no_units n = 0

pending_of : (s : Status) → is_pending s ≡ true → s ≡ pending
unfolding is_pending
pending_of s h = ground arith

not_pending : (s : Status) → s ≢ pending → is_pending s ≡ false
unfolding is_pending
not_pending s h = ground arith

abbrev set_status : Status → Time → Order → Order
set_status to now row = record row { status = to; updated_at = now }

module _ {e : Env} (laws : IsDatabase e) (id : Uuid) (o : Order) (w : World e) where
  module _ (w' : World e) where
    -- The row is saved first, then the items are committed.
    Moved-paid :
        (w1 w2 : World e)
        → Saved id (set_status paid w.now) w tt w1
        → Committed (e.items w1.rows id) w1 tt w2
        → w'.rows ≡ w2.rows
        → w'.now ≡ w2.now
        → Moved paid all_units id o w (set_status paid w.now o) w'
    Moved-paid w1 w2 s c rows clock =
        let items : (j : Uuid) → e.items w1.rows j ≡ e.items w.rows j =
          λ j. rw (s.rows, laws.items-update_order) in
        let stock : (p : Uuid) → e.stock_item w1.rows p ≡ e.stock_item w.rows p =
          λ p. rw (s.rows, laws.stock_item-update_order) in
        record {
          result = refl;
          was = (
            s.was.0,
            s.was.1,
            rw rows (c.rest.orders id ∙ rw (s.rows, laws.order-update, ==_refl id, s.was.1)),
          );
          reserved = λ p. rw (rows, ← stock p, ← items id) (c.reserved p);
          quantity = λ p. rw (rows, ← stock p, ← items id) (c.quantity p);
          orders = λ j ne. rw rows (c.rest.orders j ∙ rw (s.rows, laws.order-update, ne));
          items = λ j. rw rows (c.rest.items j ∙ items j);
          clock = clock ∙ c.rest.clock ∙ s.clock;
        }

    -- The items are released first, then the row is saved.
    Moved-cancelled :
        (now : Time) (w1 w2 : World e)
        → now ≡ w.now
        → Released (e.items w.rows id) w tt w1
        → Saved id (set_status cancelled now) w1 tt w2
        → w'.rows ≡ w2.rows
        → w'.now ≡ w2.now
        → Moved cancelled no_units id o w (set_status cancelled now o) w'
    Moved-cancelled now w1 w2 eq r s rows clock =
        let stock : (p : Uuid) → e.stock_item w2.rows p ≡ e.stock_item w1.rows p =
          λ p. rw (s.rows, laws.stock_item-update_order) in
        record {
          result = ap (λ t. set_status cancelled t o) eq;
          was = (
            s.was.0,
            sym (r.rest.orders id) ∙ s.was.1,
            rw (rows, s.rows, laws.order-update, ==_refl id, s.was.1)
                (ap (λ t. some (set_status cancelled t s.was.0)) eq),
          );
          reserved = λ p. rw (rows, stock p) (r.reserved p);
          quantity = λ p. rw (rows, stock p) (omega (arith, r.quantity p));
          orders = λ j ne. rw (rows, s.rows, laws.order-update, ne) (r.rest.orders j);
          items = λ j. rw (rows, s.rows, laws.items-update_order) (r.rest.items j);
          clock = clock ∙ s.clock ∙ r.rest.clock;
        }

  -- `mark_order_paid` has no guard. If it returns, the order's row is PAID, and its items have left
  -- both the reservations and the stock on hand, each difference stopping at 0. If it raises, no
  -- row has changed.
  pub mark_order_paid_atomic :
      Post (Moved paid all_units id o w) (SameRows w) (mark_order_paid id o w)
  unfolding mark_order_paid mark_order_paid_body
  mark_order_paid_atomic =
      atomic-Post laws (Moved paid all_units id o w) (mark_order_paid_body id o) w (
        >>=-Post (Saved id (set_status paid w.now) w) (Clock w) (Moved paid all_units id o w)
          (Clock w)
          (λ _. do
            items ← gets (λ w1. e.items w1.rows id)
            commit_items items
            publish e.order_topic "order.paid" (some id)
                (order_event_payload id (set_status paid w.now o))
            pure (set_status paid w.now o))
          (save_order id (set_status paid w.now)) w
          (λ _ w1 s.
            >>=-Post (Committed (e.items w1.rows id) w1) (Clock w1) (Moved paid all_units id o w)
              (Clock w)
              (λ _. do
                publish e.order_topic "order.paid" (some id)
                    (order_event_payload id (set_status paid w.now o))
                pure (set_status paid w.now o))
              (commit_items (e.items w1.rows id)) w1 (λ _ w2 c. Moved-paid _ w1 w2 s c refl refl)
              (λ x w2 clock. clock ∙ s.clock) (commit_items-Committed laws (e.items w1.rows id) w1))
          (λ x w1 clock. clock) (save_order-Saved id (set_status paid w.now) w))

  cancel_pending-Moved : Post (Moved cancelled no_units id o w) (Clock w) (cancel_pending id o w)
  unfolding cancel_pending
  cancel_pending-Moved =
      >>=-Post (Released (e.items w.rows id) w) (Clock w) (Moved cancelled no_units id o w)
        (Clock w)
        (λ _. do
          now ← gets (λ w1. w1.now)
          save_order id (set_status cancelled now)
          publish e.order_topic "order.cancelled" (some id)
              (order_event_payload id (set_status cancelled now o))
          pure (set_status cancelled now o))
        (release_items (e.items w.rows id)) w
        (λ _ w1 r.
          >>=-Post (Saved id (set_status cancelled w1.now) w1) (Clock w1)
            (Moved cancelled no_units id o w) (Clock w)
            (λ _. do
              publish e.order_topic "order.cancelled" (some id)
                  (order_event_payload id (set_status cancelled w1.now o))
              pure (set_status cancelled w1.now o))
            (save_order id (set_status cancelled w1.now)) w1
            (λ _ w2 s. Moved-cancelled _ w1.now w1 w2 r.rest.clock r s refl refl)
            (λ x w2 clock. clock ∙ r.rest.clock)
            (save_order-Saved id (set_status cancelled w1.now) w1))
        (λ x w1 clock. clock) (release_items-Released laws (e.items w.rows id) w)

  -- A `cancel_order` that returns was given a PENDING instance; the order's row is CANCELLED, and
  -- its items have left the reservations, each difference stopping at 0, and not the stock on
  -- hand. One that raises has changed no row.
  pub cancel_order_atomic :
      Post
        (λ o' w'. (o.status ≡ pending) × Moved cancelled no_units id o w o' w')
        (SameRows w)
        (cancel_order id o w)
  unfolding cancel_order cancel_order_body
  cancel_order_atomic =
      atomic-Post laws (λ o' w'. (o.status ≡ pending) × Moved cancelled no_units id o w o' w')
        (cancel_order_body id o) w
        (elim (Bool-cases (is_pending o.status)) [
          | inl y ↦ rw y (
              Post-map (Moved cancelled no_units id o w)
                (λ o' w'. (o.status ≡ pending) × Moved cancelled no_units id o w o' w') (Clock w)
                (Clock w) (λ o' w' m. (pending_of _ y, m)) (λ x w' c. c) (cancel_pending id o w)
                cancel_pending-Moved)
          | inr n ↦ rw n refl
        ])

  -- Of an instance in any other status it refuses, with the error that names the status, and
  -- nothing at all has happened: no row, message or task.
  pub cancel_order_refuses :
      o.status ≢ pending → cancel_order id o w ≡ (err (not_cancellable o.status), w)
  unfolding cancel_order
  cancel_order_refuses ne = rw (not_pending _ ne, laws.rollback_lem)

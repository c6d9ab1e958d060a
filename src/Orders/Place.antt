-- ===== src/Orders/Place.antt =====
-- `place_order` of orders/services.py: all of it or nothing.
use orbit_commerce_platform.Orders.Lines.{Placed, place_lines-Placed}
use orbit_commerce_platform.Orders.Counters.{amount, units, ordered, reserved_at, quantity_at}
use orbit_commerce_platform.Orders.Models.{Order, pending}
use orbit_commerce_platform.Platform.Post.{Post, Clock, SameRows, >>=-Post, Post-map, atomic-Post}
use orbit_commerce_platform.Platform.Exec.{World, delay, pure, ◌>>◌, publish, Exec, ◌>>=◌}
use orbit_commerce_platform.Catalog.Models.{Uuid}
use orbit_commerce_platform.Orders.Services.{
  save_order, create_order, on_order_saved, new_order, Line, total_fits, place_order,
  place_order_body, order_event_payload, place_lines,
}
use orbit_commerce_platform.Platform.Env.{
  Env, Task, broadcast_order_update, send_order_confirmation_email, IsDatabase,
}
use orbit_commerce_platform.Prelude.{
  Bool, ◌≡◌, List, some, none, Option-cases, Bool-cases, inl, inr, refl, true, false, ◌∙◌, ◌+◌,
  ◌==◌, ℤ, [], pos, ==_refl, ◌+ℤ◌, arith, ap, int_laws, pos_part, neg_part, ◌≤◌, leb, ◌⊎◌, ◌<◌,
}

-- What a `place_order` that returned `o` has done, for an order whose key was free.
pub record Created {e : Env} (id customer : Uuid) (lines : List Line) (w : World e) (o : Order)
    (w' : World e) : Type 0 where
  pub status : o.status ≡ pending
  pub owner : o.customer ≡ customer
  pub total : o.total_amount ≡ amount (e.items w'.rows id)
  pub row : e.order w'.rows id ≡ some o
  pub fresh : e.order w.rows id ≡ none
  pub stored : (p : Uuid) → units p (e.items w'.rows id) ≡ ordered p lines
  pub reserved : (p : Uuid) → reserved_at w' p ≡ reserved_at w p + ordered p lines
  pub quantity : (p : Uuid) → quantity_at w' p ≡ quantity_at w p
  pub orders : (j : Uuid) → (id == j) ≡ false → e.order w'.rows j ≡ e.order w.rows j
  pub others : (j : Uuid) → (id == j) ≡ false → e.items w'.rows j ≡ e.items w.rows j
  pub covered :
      (p : Uuid) → (reserved_at w' p ≤ quantity_at w' p) ⊎ (quantity_at w p < reserved_at w p)
  pub clock : w'.now ≡ w.now

-- The receiver queues tasks and touches nothing else.
pub record Queued {e : Env} (w : World e) (t : Unit {0}) (w' : World e) : Type 0 where
  pub rows : w'.rows ≡ w.rows
  pub clock : w'.now ≡ w.now

delay-Queued : {e : Env} (t : Task) (w : World e) → Post (Queued w) (SameRows w) (delay t w)
delay-Queued {e} t w = elim (Bool-cases (e.accepts_task w.now t)) [
  | inl y ↦ rw y (record { rows = refl; clock = refl })
  | inr n ↦ rw n (refl, refl)
]

pub on_order_saved-Queued :
    {e : Env} (id : Uuid) (created : Bool) (w : World e)
    → Post (Queued w) (SameRows w) (on_order_saved id created w)
unfolding on_order_saved
on_order_saved-Queued {e} id true w =
    >>=-Post (Queued w) (SameRows w) (Queued w) (SameRows w)
      (λ _. delay (broadcast_order_update id)) (delay (send_order_confirmation_email id)) w
      (λ _ w' h.
        Post-map (Queued w') (Queued w) (SameRows w') (SameRows w)
          (λ _ w'' k. record { rows = k.rows ∙ h.rows; clock = k.clock ∙ h.clock })
          (λ _ w'' k. (k.0 ∙ h.rows, k.1 ∙ h.clock)) (delay (broadcast_order_update id) w')
          (delay-Queued _ w'))
      (λ x w' h. h) (delay-Queued _ w)
on_order_saved-Queued {e} id false w = delay-Queued _ w

-- A `save` that returned has set the columns of a row that was there.
pub record Saved {e : Env} (id : Uuid) (set : Order → Order) (w : World e) (t : Unit {0})
    (w' : World e) : Type 0 where
  pub was : (o : Order) × (e.order w.rows id ≡ some o)
  pub rows : w'.rows ≡ e.update_order id set w.rows
  pub clock : w'.now ≡ w.now

pub save_order-Saved :
    {e : Env} (id : Uuid) (set : Order → Order) (w : World e)
    → Post (Saved id set w) (Clock w) (save_order id set w)
unfolding save_order
save_order-Saved {e} id set w = elim (Option-cases (e.order w.rows id)) [
  | inl missing ↦ rw missing refl
  | inr (o, found) ↦ elim (Bool-cases (total_fits (set o).total_amount)) [
    | inl good ↦
        let w1 : World e = record w { rows = e.update_order id set w.rows } in
        rw (found, good)
          (Post-map (Queued w1) (Saved id set w) (SameRows w1) (Clock w)
            (λ _ w' h. record { was = (o, found); rows = h.rows; clock = h.clock }) (λ _ w' h. h.1)
            (on_order_saved id false w1) (on_order_saved-Queued id false w1))
    | inr bad ↦ rw (found, bad) refl
  ]
]

pub record Inserted {e : Env} (id customer : Uuid) (w : World e) (o : Order) (w' : World e)
    : Type 0 where
  pub made : o ≡ new_order customer w.now
  pub fresh : e.order w.rows id ≡ none
  pub rows : w'.rows ≡ e.insert_order id o w.rows
  pub clock : w'.now ≡ w.now

create_order-Inserted :
    {e : Env} (id customer : Uuid) (w : World e)
    → Post (Inserted id customer w) (Clock w) (create_order id customer w)
unfolding create_order
create_order-Inserted {e} id customer w = elim (Option-cases (e.order w.rows id)) [
  | inl fresh ↦
      let o : Order = new_order customer w.now in
      let w1 : World e = record w { rows = e.insert_order id o w.rows } in
      rw fresh (
        >>=-Post (Queued w1) (SameRows w1) (Inserted id customer w) (Clock w) (λ _. pure o)
          (on_order_saved id true) w1
          (λ _ w' h. record { made = refl; fresh = fresh; rows = h.rows; clock = h.clock })
          (λ x w' h. h.1) (on_order_saved-Queued id true w1))
  | inr (o, taken) ↦ rw taken refl
]

zero_cost : (t c : ℤ) → t +ℤ pos 0 ≡ pos 0 +ℤ c → t ≡ c
zero_cost t c h = omega (int_laws, ap pos_part h, ap neg_part h)

abbrev set_total : ℤ → Order → Order
set_total total row = record row { total_amount = total }

module _ {e : Env} (laws : IsDatabase e) (id customer : Uuid) (lines : List Line) (w : World e)
    (no_orphans : e.order w.rows id ≡ none → e.items w.rows id ≡ []) where
  -- The three phases together.
  Created-phases :
      (o : Order) (total : ℤ) (w1 w2 w3 w4 : World e)
      → Inserted id customer w o w1
      → Placed id lines (pos 0) w1 total w2
      → Saved id (set_total total) w2 tt w3
      → w4.rows ≡ w3.rows
      → w4.now ≡ w3.now
      → Created id customer lines w (set_total total o) w4
  unfolding new_order
  Created-phases o total w1 w2 w3 w4 i h s same still =
      let rows : w4.rows ≡ e.update_order id (set_total total) w2.rows = same ∙ s.rows in
      let none_yet : e.items w1.rows id ≡ [] =
        rw (i.rows, laws.items-insert_order) (no_orphans i.fresh) in
      let stock : (p : Uuid) → e.stock_item w4.rows p ≡ e.stock_item w2.rows p =
        λ p. rw (rows, laws.stock_item-update_order) in
      let stock1 : (p : Uuid) → e.stock_item w1.rows p ≡ e.stock_item w.rows p =
        λ p. rw (i.rows, laws.stock_item-insert_order) in
      let items : (j : Uuid) → e.items w4.rows j ≡ e.items w2.rows j =
        λ j. rw (rows, laws.items-update_order) in
      let there : e.order w2.rows id ≡ some o =
        h.orders id ∙ rw (i.rows, laws.order-insert, ==_refl id) in
      record {
        status = rw i.made refl;
        owner = rw i.made refl;
        total = rw (items id) (zero_cost total _ (rw none_yet at h.cost));
        row = rw (rows, laws.order-update, ==_refl id, there);
        fresh = i.fresh;
        stored = λ p. rw (items id) (omega (arith, ap (units p) none_yet, h.stored p));
        reserved = λ p. rw (stock p, ← stock1 p) (h.reserved p);
        quantity = λ p. rw (stock p, ← stock1 p) (h.quantity p);
        orders = λ j ne.
            rw (rows, laws.order-update, ne) (h.orders j ∙ rw (i.rows, laws.order-insert, ne));
        others = λ j ne. items j ∙ h.others j ne ∙ rw (i.rows, laws.items-insert_order);
        covered = λ p. elim (Bool-cases (leb (reserved_at w p) (quantity_at w p))) [
          | inl fits ↦ inl (rw (stock p) (h.covered p (rw (stock1 p) (ground arith))))
          | inr over ↦ inr (ground arith)
        ];
        clock = still ∙ s.clock ∙ h.clock ∙ i.clock;
      }

  abbrev finish : Order → ℤ → Exec e Order
  finish o total = do
    save_order id (set_total total)
    publish e.order_topic "order.created" (some id) (order_event_payload id (set_total total o))
    pure (set_total total o)

  after_lines :
      (o : Order) (total : ℤ) (w1 w2 : World e)
      → Inserted id customer w o w1
      → Placed id lines (pos 0) w1 total w2
      → Post (Created id customer lines w) (Clock w) (finish o total w2)
  after_lines o total w1 w2 i h =
      >>=-Post (Saved id (set_total total) w2) (Clock w2) (Created id customer lines w) (Clock w)
        (λ _. do
          publish e.order_topic "order.created" (some id)
              (order_event_payload id (set_total total o))
          pure (set_total total o))
        (save_order id (set_total total)) w2
        (λ _ w3 s. Created-phases o total w1 w2 w3 _ i h s refl refl)
        (λ x w3 clock. clock ∙ h.clock ∙ i.clock) (save_order-Saved id (set_total total) w2)

  after_create :
      (o : Order) (w1 : World e)
      → Inserted id customer w o w1
      → Post
          (Created id customer lines w)
          (Clock w)
          ((do total ← place_lines id lines (pos 0); finish o total) w1)
  after_create o w1 i =
      >>=-Post (Placed id lines (pos 0) w1) (Clock w1) (Created id customer lines w) (Clock w)
        (finish o) (place_lines id lines (pos 0)) w1 (λ total w2 h. after_lines o total w1 w2 i h)
        (λ x w2 clock. clock ∙ i.clock) (place_lines-Placed laws id lines (pos 0) w1)

  place_order_body-Created :
      Post (Created id customer lines w) (Clock w) (place_order_body id customer lines w)
  unfolding place_order_body
  place_order_body-Created =
      >>=-Post (Inserted id customer w) (Clock w) (Created id customer lines w) (Clock w)
        (λ o. do total ← place_lines id lines (pos 0); finish o total) (create_order id customer) w
        after_create (λ x w1 clock. clock) (create_order-Inserted id customer w)

  -- A `place_order` that returns has created the order, and one that raises has changed no row.
  -- No item refers to an order that is not there.
  pub place_order_atomic :
      Post (Created id customer lines w) (SameRows w) (place_order id customer lines w)
  unfolding place_order
  place_order_atomic =
      atomic-Post laws (Created id customer lines w) (place_order_body id customer lines) w
        place_order_body-Created

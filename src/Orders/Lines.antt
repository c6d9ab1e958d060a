-- ===== src/Orders/Lines.antt =====
-- The loop of `place_order`: what its lines have reserved, stored and cost when it has run.
use orbit_commerce_platform.Inventory.Services.{count_fits, reserve_stock}
use mathlib.Core.List.{Perm}
use orbit_commerce_platform.Platform.Post.{Post, Clock, >>=-Post, Post-map, SameRows}
use orbit_commerce_platform.Orders.Models.{OrderItem}
use orbit_commerce_platform.Inventory.Writes.{StockWrite, reserved, reserve_stock-Writes}
use orbit_commerce_platform.Orders.Counters.{
  reserved_at, ordered, quantity_at, units, amount, units-perm, amount-perm, reserved-reserved,
  quantity-reserved, covered-reserved,
}
use orbit_commerce_platform.Platform.Exec.{World, ◌>>◌}
use orbit_commerce_platform.Inventory.StockItem.{StockItem, available_quantity}
use orbit_commerce_platform.Orders.Services.{
  Line, place_lines, create_item, active_product, get_product,
}
use orbit_commerce_platform.Catalog.Models.{Uuid}
use orbit_commerce_platform.Platform.Env.{Env, IsDatabase}
use orbit_commerce_platform.Prelude.{
  List, ℤ, ◌≡◌, ◌+ℤ◌, ◌+◌, ◌*ℤ◌, pos, ◌∷◌, ◌∙◌, ◌==◌, false, arith, Option-cases, inl, inr,
  Bool-cases, ltb, ◌≤◌, ◌&&◌, int_laws, refl, [], ap, pos_part, neg_part,
}

-- From `w` to `w'` the loop for order `id` has run over `lines`, and the total has gone from
-- `total` to `total'`.
pub record Placed {e : Env} (id : Uuid) (lines : List Line) (total : ℤ) (w : World e) (total' : ℤ)
    (w' : World e) : Type 0 where
  pub reserved : (p : Uuid) → reserved_at w' p ≡ reserved_at w p + ordered p lines
  pub quantity : (p : Uuid) → quantity_at w' p ≡ quantity_at w p
  pub stored :
      (p : Uuid) → units p (e.items w'.rows id) ≡ units p (e.items w.rows id) + ordered p lines
  pub cost : total' +ℤ amount (e.items w.rows id) ≡ total +ℤ amount (e.items w'.rows id)
  pub orders : (j : Uuid) → e.order w'.rows j ≡ e.order w.rows j
  pub others : (j : Uuid) → (id == j) ≡ false → e.items w'.rows j ≡ e.items w.rows j
  pub covered : (p : Uuid) → reserved_at w p ≤ quantity_at w p → reserved_at w' p ≤ quantity_at w' p
  pub clock : w'.now ≡ w.now

cost_round : (a c t t' x : ℤ) → t' +ℤ (x +ℤ a) ≡ t +ℤ x +ℤ c → t' +ℤ a ≡ t +ℤ c
cost_round a c t t' x h = omega (int_laws, ap pos_part h, ap neg_part h)

module _ {e : Env} (laws : IsDatabase e) (id : Uuid) where
  -- One round: the reservation, then the item.
  round-Placed :
      (line : Line) (price total : ℤ) (rest : List Line) (total' : ℤ) {old : StockItem}
      (w w1 w2 w3 : World e)
      → line.quantity ≤ available_quantity old
      → StockWrite line.product_id old (reserved w.now line.quantity old) w w1
      → w2.rows
        ≡ e.insert_item id
            (record { product = line.product_id; quantity = line.quantity; unit_price = price })
            w1.rows
      → w2.now ≡ w1.now
      → Placed id rest (total +ℤ price *ℤ pos line.quantity) w2 total' w3
      → Placed id (line ∷ rest) total w total' w3
  round-Placed line price total rest total' {old} w w1 w2 w3 enough write rows clock h =
      let item : OrderItem = record {
        product = line.product_id;
        quantity = line.quantity;
        unit_price = price;
      } in
      let kept : (p : Uuid) → reserved_at w2 p ≡ reserved_at w1 p =
        λ p. rw (rows, laws.stock_item-insert_item) in
      let items : Perm (e.items w2.rows id) (item ∷ e.items w.rows id) =
        rw (rows, ← write.items id) (laws.items-insert w1.rows id item) in
      let items_units : (p : Uuid)
          → units p (e.items w2.rows id) ≡ units p (item ∷ e.items w.rows id) =
        λ p. units-perm p items in
      let items_amount : amount (e.items w2.rows id) ≡ amount (item ∷ e.items w.rows id) =
        amount-perm items in
      record {
        reserved =
            λ p. omega (arith, h.reserved p, kept p, reserved-reserved w.now line.quantity write p);
        quantity = λ p.
            h.quantity p
            ∙ rw (rows, laws.stock_item-insert_item)
                (quantity-reserved w.now line.quantity write p);
        stored = λ p. omega (arith, h.stored p, items_units p);
        cost =
            cost_round (amount (e.items w.rows id)) (amount (e.items w3.rows id)) total total'
              (price *ℤ pos line.quantity) (rw (← items_amount) h.cost);
        orders = λ j. h.orders j ∙ (rw (rows, laws.order-insert_item) (write.orders j));
        others = λ j ne. h.others j ne ∙ rw (rows, laws.items-insert_ne _ _ _ _ ne) (write.items j);
        covered = λ p fits. h.covered p (
            rw (rows, laws.stock_item-insert_item)
              (covered-reserved w.now line.quantity enough write p fits));
        clock = h.clock ∙ clock ∙ write.clock;
      }

  -- The rest of a round, once the reservation has returned.
  after_reserve :
      (line : Line) (price total : ℤ) (rest : List Line) {old : StockItem} (w w1 : World e)
      → line.quantity ≤ available_quantity old
      → StockWrite line.product_id old (reserved w.now line.quantity old) w w1
      → ((total : ℤ) (w : World e)
          → Post (Placed id rest total w) (Clock w) (place_lines id rest total w))
      → Post (Placed id (line ∷ rest) total w) (Clock w) (
          (create_item id
                (record { product = line.product_id; quantity = line.quantity; unit_price = price })
              >> place_lines id rest (total +ℤ price *ℤ pos line.quantity))
            w1)
  unfolding create_item
  after_reserve line price total rest w w1 enough write ih =
      elim (Bool-cases (ltb 0 line.quantity && count_fits line.quantity)) [
        | inl good ↦
            let item : OrderItem = record {
              product = line.product_id;
              quantity = line.quantity;
              unit_price = price;
            } in
            let w2 : World e = record w1 { rows = e.insert_item id item w1.rows } in
            let sum : ℤ = total +ℤ price *ℤ pos line.quantity in
            rw good (
              Post-map (Placed id rest sum w2) (Placed id (line ∷ rest) total w) (Clock w2)
                (Clock w)
                (λ t w3 h. round-Placed line price total rest t w w1 w2 w3 enough write refl refl h)
                (λ x w3 h. h ∙ write.clock) (place_lines id rest sum w2) (ih sum w2))
        | inr bad ↦ rw bad write.clock
      ]

  pub place_lines-Placed :
      (lines : List Line) (total : ℤ) (w : World e)
      → Post (Placed id lines total w) (Clock w) (place_lines id lines total w)
  unfolding place_lines get_product
  place_lines-Placed [] total w = record {
    reserved = λ p. omega arith;
    quantity = λ p. refl;
    stored = λ p. omega arith;
    cost = refl;
    orders = λ j. refl;
    others = λ j ne. refl;
    covered = λ p fits. fits;
    clock = refl;
  }
  place_lines-Placed (line ∷ rest) total w =
      elim (Option-cases (active_product (e.product w.rows line.product_id))) [
        | inl missing ↦ rw missing refl
        | inr (product, there) ↦ rw there (
            >>=-Post
              (λ s' w1.
                (old : StockItem) × (line.quantity ≤ available_quantity old)
                × (s' ≡ reserved w.now line.quantity old)
                × StockWrite line.product_id old (reserved w.now line.quantity old) w w1)
              (SameRows w) (Placed id (line ∷ rest) total w) (Clock w)
              (λ _.
                create_item id (record {
                  product = line.product_id;
                  quantity = line.quantity;
                  unit_price = product.price;
                })
                >> place_lines id rest (total +ℤ product.price *ℤ pos line.quantity))
              (reserve_stock line.product_id line.quantity) w
              (λ s' w1 h.
                after_reserve line product.price total rest w w1 h.1 h.3 (place_lines-Placed rest))
              (λ x w1 h. h.1) (reserve_stock-Writes laws line.product_id line.quantity w))
      ]

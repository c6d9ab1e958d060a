-- ===== src/Orders/Up.antt =====
-- A producer that is up stays up through the steps of `place_order`.
pub mod Transitions
use orbit_commerce_platform.Orders.Models.{Order, OrderItem}
use orbit_commerce_platform.Platform.Exec.{Exec, delay, ◌>>◌, pure, modify_rows, raise}
use orbit_commerce_platform.Orders.Services.{
  save_order, update_row, place_lines, create_order, insert_new, on_order_saved, create_item,
  get_product, total_fits, new_order, Line, active_product,
}
use orbit_commerce_platform.Common.Exceptions.{does_not_exist, database_error}
use orbit_commerce_platform.Inventory.StockItem.{StockItem, available_quantity}
use orbit_commerce_platform.Catalog.Models.{Uuid, Product}
use orbit_commerce_platform.Inventory.Services.{
  publish_stock_event, out_of_stock, reserve_stock, reserve_units, save_row, save_stock_item,
  get_stock_item, stock_fits, count_fits,
}
use orbit_commerce_platform.Platform.Env.{
  Env, broadcast_order_update, send_order_confirmation_email,
}
use orbit_commerce_platform.Platform.Up.{
  StaysUp, or_raise-StaysUp, ite-StaysUp, atomic-StaysUp, >>=-StaysUp, publish-StaysUp,
  delay-StaysUp,
}
use orbit_commerce_platform.Prelude.{
  ◌+◌, ◌∷◌, [], Bool, true, false, Option, some, none, ◌+ℤ◌, ◌*ℤ◌, ◌&&◌, pos, String, ℕ, ltb,
  Bool-cases, inl, inr, List, ℤ,
}

module _ {e : Env} where
  pub save_row-StaysUp :
      (p : Uuid) (set : StockItem → StockItem) (o : Option StockItem)
      → StaysUp {e = e} (save_row p set o)
  unfolding save_row
  save_row-StaysUp p set none w up = up
  save_row-StaysUp p set (some row) w up = elim (Bool-cases (stock_fits (set row))) [
    | inl room ↦ rw room up
    | inr over ↦ rw over up
  ]

  pub publish_stock_event-StaysUp :
      (event_type : String) (p : Uuid) (s : StockItem) (quantity : ℕ)
      → StaysUp {e = e} (publish_stock_event event_type p s quantity)
  unfolding publish_stock_event
  publish_stock_event-StaysUp event_type p s quantity =
      >>=-StaysUp _ (λ product. publish-StaysUp e.inventory_topic event_type (some p) _) _
        (λ w. or_raise-StaysUp (e.product w.rows p) does_not_exist w)

  out_of_stock-StaysUp : (p : Uuid) (s : StockItem) → StaysUp {e = e} (out_of_stock p s)
  unfolding out_of_stock
  out_of_stock-StaysUp p s =
      >>=-StaysUp _ (λ product w up. up) _
        (λ w. or_raise-StaysUp (e.product w.rows p) does_not_exist w)

  reserve_units-StaysUp :
      (p : Uuid) (s : StockItem) (quantity : ℕ) → StaysUp {e = e} (reserve_units p s quantity)
  unfolding reserve_units save_stock_item
  reserve_units-StaysUp p s quantity w =
      let s' : StockItem = record s {
        reserved_quantity = s.reserved_quantity + quantity;
        updated_at = w.now;
      } in
      let set : StockItem → StockItem = λ row. record row {
        reserved_quantity = s'.reserved_quantity;
        updated_at = s'.updated_at;
      } in
      let told : Exec e StockItem = publish_stock_event "stock.reserved" p s' quantity >> pure s' in
      >>=-StaysUp {A = Unit} {B = StockItem} (λ _. told)
        (λ _.
          >>=-StaysUp {A = Unit} {B = StockItem} (λ _. pure s') (λ _ w' up. up)
            (publish_stock_event "stock.reserved" p s' quantity)
            (publish_stock_event-StaysUp "stock.reserved" p s' quantity))
        (save_stock_item p set) (λ w'. save_row-StaysUp p set (e.stock_item w'.rows p) w') w

  reserve_stock-StaysUp : (p : Uuid) (quantity : ℕ) → StaysUp {e = e} (reserve_stock p quantity)
  unfolding reserve_stock get_stock_item
  reserve_stock-StaysUp p quantity = atomic-StaysUp _ (
      >>=-StaysUp _
        (λ s.
          ite-StaysUp (ltb (available_quantity s) quantity) (out_of_stock p s)
            (reserve_units p s quantity) (out_of_stock-StaysUp p s)
            (reserve_units-StaysUp p s quantity))
        _ (λ w. or_raise-StaysUp (e.stock_item w.rows p) does_not_exist w))

  on_order_saved-StaysUp :
      (id : Uuid) (created : Bool) → StaysUp {e = e} (on_order_saved id created)
  unfolding on_order_saved
  on_order_saved-StaysUp id true =
      >>=-StaysUp (λ _. delay (broadcast_order_update id))
        (λ _. delay-StaysUp (broadcast_order_update id)) (delay (send_order_confirmation_email id))
        (delay-StaysUp (send_order_confirmation_email id))
  on_order_saved-StaysUp id false = delay-StaysUp (broadcast_order_update id)

  insert_new-StaysUp :
      (id : Uuid) (o : Order) (taken : Option Order) → StaysUp {e = e} (insert_new id o taken)
  unfolding insert_new
  insert_new-StaysUp id o none w up = up
  insert_new-StaysUp id o (some x) w up = up

  update_row-StaysUp :
      (id : Uuid) (set : Order → Order) (found : Option Order)
      → StaysUp {e = e} (update_row id set found)
  unfolding update_row
  update_row-StaysUp id set none w up = up
  update_row-StaysUp id set (some row) w up =
      elim (Bool-cases (total_fits (set row).total_amount)) [
        | inl room ↦ rw room up
        | inr over ↦ rw over up
      ]

  pub create_order-StaysUp : (id customer : Uuid) → StaysUp {e = e} (create_order id customer)
  unfolding create_order
  create_order-StaysUp id customer w =
      let o : Order = new_order customer w.now in
      >>=-StaysUp {A = Unit} {B = Order} (λ _. on_order_saved id true >> pure o)
        (λ _.
          >>=-StaysUp {A = Unit} {B = Order} (λ _. pure o) (λ _ w' up. up) (on_order_saved id true)
            (on_order_saved-StaysUp id true))
        (insert_new id o (e.order w.rows id)) (insert_new-StaysUp id o (e.order w.rows id)) w

  pub save_order-StaysUp : (id : Uuid) (set : Order → Order) → StaysUp {e = e} (save_order id set)
  unfolding save_order
  save_order-StaysUp id set w =
      >>=-StaysUp {A = Unit} {B = Unit} (λ _. on_order_saved id false)
        (λ _. on_order_saved-StaysUp id false) (update_row id set (e.order w.rows id))
        (update_row-StaysUp id set (e.order w.rows id)) w

  create_item-StaysUp : (id : Uuid) (item : OrderItem) → StaysUp {e = e} (create_item id item)
  unfolding create_item
  create_item-StaysUp id item =
      ite-StaysUp (ltb 0 item.quantity && count_fits item.quantity)
        (modify_rows (e.insert_item id item)) (raise database_error) (λ w up. up) (λ w up. up)

  pub place_lines-StaysUp :
      (id : Uuid) (lines : List Line) (total : ℤ) → StaysUp {e = e} (place_lines id lines total)
  unfolding place_lines get_product
  place_lines-StaysUp id [] total = λ w up. up
  place_lines-StaysUp id (line ∷ rest) total =
      let sum : Product → ℤ = λ product. total +ℤ product.price *ℤ pos line.quantity in
      let item : Product → OrderItem = λ product. record {
        product = line.product_id;
        quantity = line.quantity;
        unit_price = product.price;
      } in
      >>=-StaysUp {A = Product} {B = ℤ} _
        (λ product.
          >>=-StaysUp {A = StockItem} {B = ℤ}
            (λ _. create_item id (item product) >> place_lines id rest (sum product))
            (λ _.
              >>=-StaysUp {A = Unit} {B = ℤ} (λ _. place_lines id rest (sum product))
                (λ _. place_lines-StaysUp id rest (sum product)) (create_item id (item product))
                (create_item-StaysUp id (item product)))
            (reserve_stock line.product_id line.quantity)
            (reserve_stock-StaysUp line.product_id line.quantity))
        _
        (λ w. or_raise-StaysUp (active_product (e.product w.rows line.product_id)) does_not_exist w)

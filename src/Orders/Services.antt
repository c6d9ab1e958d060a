-- ===== src/Orders/Services.antt =====
-- services/core_api/apps/orders/services.py, with the `post_save` receiver of orders/signals.py
-- that every save of an order runs.
use orbit_commerce_platform.Common.Exceptions.{does_not_exist, database_error, not_cancellable}
use orbit_commerce_platform.Common.Kafka.{Payload, order_payload}
use orbit_commerce_platform.Platform.Exec.{
  Exec, modify_rows, raise, or_raise, pure, atomic, ◌>>=◌, ◌>>◌, publish, gets, delay,
}
use orbit_commerce_platform.Orders.Models.{pending, Status, OrderItem, Order, cancelled, paid}
use orbit_commerce_platform.Inventory.Services.{
  count_fits, reserve_stock, commit_stock, release_stock,
}
use orbit_commerce_platform.Platform.Env.{
  Env, send_order_confirmation_email, broadcast_order_update,
}
use orbit_commerce_platform.Catalog.Models.{Product, Uuid, Time}
use orbit_commerce_platform.Prelude.{
  ℕ, ℤ, pos, ◌+ℤ◌, ◌*ℤ◌, Bool, true, false, ◌&&◌, Option, some, none, List, [], ◌∷◌, ltb,
  if◌then◌else◌, pos_part, ◌^◌, neg_part,
}

-- One entry of `items: [{"product_id": UUID, "quantity": int}, ...]`.
pub record Line : Type 0 where
  pub product_id : Uuid
  pub quantity : ℕ

-- The range of `total_amount`, a `DecimalField` of twelve digits, two of them decimals.
unfoldable pub total_fits : ℤ → Bool
total_fits amount = ltb (pos_part amount) (10 ^ 12) && ltb (neg_part amount) (10 ^ 12)

-- `on_order_saved`
unfoldable pub on_order_saved : {e : Env} → Uuid → Bool → Exec e Unit
on_order_saved id true = do
  delay (send_order_confirmation_email id)
  delay (broadcast_order_update id)
on_order_saved id false = delay (broadcast_order_update id)

unfoldable pub insert_new : {e : Env} → Uuid → Order → Option Order → Exec e Unit
insert_new {e} id o none = modify_rows (e.insert_order id o)
insert_new id o (some taken) = raise database_error

-- The columns of a new order, with the defaults of the model.
unfoldable pub new_order : Uuid → Time → Order
new_order customer now = record {
  customer = customer;
  status = pending;
  total_amount = pos 0;
  created_at = now;
  updated_at = now;
}

-- `Order.objects.create(customer=customer, status=Order.Status.PENDING)`, with the key that
-- `uuid4` gave; a key that is taken is refused by the database.
unfoldable pub create_order : {e : Env} → Uuid → Uuid → Exec e Order
unfolding insert_new on_order_saved new_order
create_order {e} id customer = do
  now ← gets (λ w. w.now)
  let o = new_order customer now
  taken ← gets (λ w. e.order w.rows id)
  insert_new id o taken
  on_order_saved id true
  pure o

unfoldable pub update_row : {e : Env} → Uuid → (Order → Order) → Option Order → Exec e Unit
unfolding total_fits
update_row id set none = raise database_error
update_row {e} id set (some row) =
    if total_fits (set row).total_amount
    then modify_rows (e.update_order id set)
    else raise database_error

-- `order.save(update_fields=[...])`, with the columns set by `set`.
unfoldable pub save_order : {e : Env} → Uuid → (Order → Order) → Exec e Unit
unfolding update_row on_order_saved
save_order {e} id set = do
  found ← gets (λ w. e.order w.rows id)
  update_row id set found
  on_order_saved id false

-- `OrderItem.objects.create(...)`: the check constraint wants a quantity above 0, and the column
-- a quantity in range.
unfoldable pub create_item : {e : Env} → Uuid → OrderItem → Exec e Unit
unfolding count_fits
create_item {e} id item =
    if ltb 0 item.quantity && count_fits item.quantity
    then modify_rows (e.insert_item id item)
    else raise database_error

-- `Product.objects.get(id=..., is_active=True)`
unfoldable pub active_product : Option Product → Option Product
active_product none = none
active_product (some product) = if product.is_active then some product else none

unfoldable pub get_product : {e : Env} → Uuid → Exec e Product
unfolding active_product
get_product {e} id w = or_raise (active_product (e.product w.rows id)) does_not_exist w

-- The loop of `place_order`, on the running total.
unfoldable pub place_lines : {e : Env} → Uuid → List Line → ℤ → Exec e ℤ
place_lines id [] total = pure total
place_lines id (line ∷ rest) total = do
  product ← get_product line.product_id
  reserve_stock line.product_id line.quantity
  create_item id
      (record { product = line.product_id; quantity = line.quantity; unit_price = product.price })
  place_lines id rest (total +ℤ product.price *ℤ pos line.quantity)

-- `_order_event_payload`
unfoldable pub order_event_payload : Uuid → Order → Payload
order_event_payload id o = order_payload id o.customer o.status o.total_amount

unfoldable pub place_order_body : {e : Env} → Uuid → Uuid → List Line → Exec e Order
unfolding create_order place_lines save_order order_event_payload
place_order_body {e} id customer lines = do
  o ← create_order id customer
  total ← place_lines id lines (pos 0)
  save_order id (λ row. record row { total_amount = total })
  let placed = record o { total_amount = total }
  publish e.order_topic "order.created" (some id) (order_event_payload id placed)
  pure placed

unfoldable pub place_order : {e : Env} → Uuid → Uuid → List Line → Exec e Order
unfolding place_order_body
place_order id customer lines = atomic (place_order_body id customer lines)

unfoldable pub commit_items : {e : Env} → List OrderItem → Exec e Unit
commit_items [] = pure tt
commit_items (item ∷ rest) = do commit_stock item.product item.quantity; commit_items rest

-- The instance that the caller holds comes in as `o`. There is no test of its status.
unfoldable pub mark_order_paid_body : {e : Env} → Uuid → Order → Exec e Order
unfolding save_order commit_items order_event_payload
mark_order_paid_body {e} id o = do
  now ← gets (λ w. w.now)
  save_order id (λ row. record row { status = paid; updated_at = now })
  items ← gets (λ w. e.items w.rows id)
  commit_items items
  let o' = record o { status = paid; updated_at = now }
  publish e.order_topic "order.paid" (some id) (order_event_payload id o')
  pure o'

unfoldable pub mark_order_paid : {e : Env} → Uuid → Order → Exec e Order
unfolding mark_order_paid_body
mark_order_paid id o = atomic (mark_order_paid_body id o)

unfoldable pub release_items : {e : Env} → List OrderItem → Exec e Unit
release_items [] = pure tt
release_items (item ∷ rest) = do release_stock item.product item.quantity; release_items rest

unfoldable pub cancel_pending : {e : Env} → Uuid → Order → Exec e Order
unfolding save_order release_items order_event_payload
cancel_pending {e} id o = do
  items ← gets (λ w. e.items w.rows id)
  release_items items
  now ← gets (λ w. w.now)
  save_order id (λ row. record row { status = cancelled; updated_at = now })
  let o' = record o { status = cancelled; updated_at = now }
  publish e.order_topic "order.cancelled" (some id) (order_event_payload id o')
  pure o'

unfoldable pub is_pending : Status → Bool
is_pending pending = true
is_pending _ = false

-- The test is on the instance that the caller holds, not on the row.
unfoldable pub cancel_order_body : {e : Env} → Uuid → Order → Exec e Order
unfolding is_pending cancel_pending
cancel_order_body id o =
    if is_pending o.status then cancel_pending id o else raise (not_cancellable o.status)

unfoldable pub cancel_order : {e : Env} → Uuid → Order → Exec e Order
unfolding cancel_order_body
cancel_order id o = atomic (cancel_order_body id o)

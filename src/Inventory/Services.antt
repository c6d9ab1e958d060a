-- ===== src/Inventory/Services.antt =====
-- services/core_api/apps/inventory/services.py: reserving, releasing and committing stock.
-- Quantities are numbers: the serializer lets no quantity below 1 through. The row lock is no
-- part of these sequential definitions.
use orbit_commerce_platform.Prelude.{
  ℕ, ◌+◌, ◌-◌, String, Bool, ◌&&◌, Option, some, none, leb, ltb, if◌then◌else◌,
}
use orbit_commerce_platform.Catalog.Models.{Uuid}
use orbit_commerce_platform.Inventory.StockItem.{
  StockItem, available_quantity, is_below_reorder_threshold,
}
use orbit_commerce_platform.Common.Exceptions.{
  err, insufficient_stock, does_not_exist, database_error,
}
use orbit_commerce_platform.Common.Kafka.{stock_payload}
use orbit_commerce_platform.Platform.Env.{Env}
use orbit_commerce_platform.Platform.Exec.{
  Exec, pure, raise, gets, or_raise, modify_rows, ◌>>=◌, ◌>>◌, atomic, publish,
}

-- The range of a `PositiveIntegerField`.
abbrev pub max_positive_integer : ℕ
max_positive_integer = 2147483647

unfoldable pub count_fits : ℕ → Bool
count_fits n = leb n max_positive_integer

-- The columns that a stock item must have to be stored.
unfoldable pub stock_fits : StockItem → Bool
unfolding count_fits
stock_fits s = count_fits s.quantity && count_fits s.reserved_quantity

unfoldable pub save_row :
    {e : Env} → Uuid → (StockItem → StockItem) → Option StockItem → Exec e Unit
unfolding stock_fits
save_row p set none w = (err database_error, w)
save_row {e} p set (some row) w =
    if stock_fits (set row)
    then modify_rows (e.update_stock_item p set) w
    else (err database_error, w)

-- `stock_item.save(update_fields=[...])`, with the columns set by `set`: it wants the row to be
-- there, and the database wants the counts to be in range.
unfoldable pub save_stock_item : {e : Env} → Uuid → (StockItem → StockItem) → Exec e Unit
unfolding save_row
save_stock_item {e} p set w = save_row p set (e.stock_item w.rows p) w

-- `StockItem.objects.select_for_update().get(product_id=product_id)`
unfoldable pub get_stock_item : {e : Env} → Uuid → Exec e StockItem
get_stock_item {e} p w = or_raise (e.stock_item w.rows p) does_not_exist w

unfoldable pub publish_stock_event : {e : Env} → String → Uuid → StockItem → ℕ → Exec e Unit
publish_stock_event {e} event_type p s quantity = do
  product ← λ w. or_raise (e.product w.rows p) does_not_exist w
  publish e.inventory_topic event_type (some p)
      (stock_payload p product.sku quantity (available_quantity s) (is_below_reorder_threshold s))

-- The message of the exception names the product, which is read for it.
unfoldable pub out_of_stock : {e : Env} → Uuid → StockItem → Exec e StockItem
out_of_stock {e} p s = do
  product ← λ w. or_raise (e.product w.rows p) does_not_exist w
  raise (insufficient_stock (available_quantity s) product.name)

unfoldable pub reserve_units : {e : Env} → Uuid → StockItem → ℕ → Exec e StockItem
unfolding save_stock_item publish_stock_event
reserve_units p s quantity = do
  now ← gets (λ w. w.now)
  let s' = record s { reserved_quantity = s.reserved_quantity + quantity; updated_at = now }
  save_stock_item p
      (λ row. record row { reserved_quantity = s'.reserved_quantity; updated_at = s'.updated_at })
  publish_stock_event "stock.reserved" p s' quantity
  pure s'

unfoldable pub reserve_stock : {e : Env} → Uuid → ℕ → Exec e StockItem
unfolding get_stock_item out_of_stock reserve_units
reserve_stock p quantity = atomic do
  s ← get_stock_item p
  if ltb (available_quantity s) quantity then out_of_stock p s else reserve_units p s quantity

unfoldable pub release_stock : {e : Env} → Uuid → ℕ → Exec e StockItem
unfolding get_stock_item save_stock_item publish_stock_event
release_stock p quantity = atomic do
  s ← get_stock_item p
  now ← gets (λ w. w.now)
  let s' = record s { reserved_quantity = s.reserved_quantity - quantity; updated_at = now }
  save_stock_item p
      (λ row. record row { reserved_quantity = s'.reserved_quantity; updated_at = s'.updated_at })
  publish_stock_event "stock.released" p s' quantity
  pure s'

unfoldable pub commit_stock : {e : Env} → Uuid → ℕ → Exec e StockItem
unfolding get_stock_item save_stock_item publish_stock_event
commit_stock p quantity = atomic do
  s ← get_stock_item p
  now ← gets (λ w. w.now)
  let s' = record s {
    quantity = s.quantity - quantity;
    reserved_quantity = s.reserved_quantity - quantity;
    updated_at = now;
  }
  save_stock_item p (λ row. record row {
    quantity = s'.quantity;
    reserved_quantity = s'.reserved_quantity;
    updated_at = s'.updated_at;
  })
  publish_stock_event "stock.committed" p s' quantity
  pure s'

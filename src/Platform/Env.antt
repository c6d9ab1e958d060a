-- ===== src/Platform/Env.antt =====
-- The interface to the database, the settings and the task queue, none of which are code of the
-- repository: operations as fields, and what the code relies on in the record `IsDatabase`.
use mathlib.Core.Option
use mathlib.Core.List.{Perm}
use orbit_commerce_platform.Prelude.{
  String, ◌≡◌, Bool, false, Option, some, List, ◌∷◌, ◌==◌, if◌then◌else◌,
}
use orbit_commerce_platform.Catalog.Models.{Uuid, Time, Product}
use orbit_commerce_platform.Inventory.StockItem.{StockItem}
use orbit_commerce_platform.Orders.Models.{Order, OrderItem}
use orbit_commerce_platform.Common.Kafka.{Broker}

-- The two tasks that `on_order_saved` hands to Celery.
pub data Task : Type 0 where
  send_order_confirmation_email broadcast_order_update : Uuid → Task

-- The rows of the tables, read and written by key. `update_...` is an UPDATE of one row, in which
-- the function sets the columns; `insert_...` is an INSERT; `rollback before after` is the state
-- to which a transaction returns that began at `before` and has come to `after`.
pub record Env : Type 1 where
  pub Rows : Type 0
  pub product : Rows → Uuid → Option Product
  pub stock_item : Rows → Uuid → Option StockItem
  pub order : Rows → Uuid → Option Order
  pub items : Rows → Uuid → List OrderItem
  pub update_stock_item : Uuid → (StockItem → StockItem) → Rows → Rows
  pub insert_order : Uuid → Order → Rows → Rows
  pub update_order : Uuid → (Order → Order) → Rows → Rows
  pub insert_item : Uuid → OrderItem → Rows → Rows
  pub rollback : Rows → Rows → Rows
  pub broker : Broker
  pub order_topic : String
  pub inventory_topic : String
  pub accepts_task : Time → Task → Bool

-- A row that was written is read back, and all others stay. In what order the items of an order
-- are read is left open, since the model gives them none.
pub record IsDatabase (e : Env) : Type 0 where
  pub rollback_lem : (before after : e.Rows) → e.rollback before after ≡ before
  pub stock_item-update :
      (r : e.Rows) (p q : Uuid) (f : StockItem → StockItem)
      → e.stock_item (e.update_stock_item p f r) q
        ≡ (if p == q then Option.map f (e.stock_item r q) else e.stock_item r q)
  pub stock_item-insert_order :
      (r : e.Rows) (i q : Uuid) (o : Order)
      → e.stock_item (e.insert_order i o r) q ≡ e.stock_item r q
  pub stock_item-update_order :
      (r : e.Rows) (i q : Uuid) (f : Order → Order)
      → e.stock_item (e.update_order i f r) q ≡ e.stock_item r q
  pub stock_item-insert_item :
      (r : e.Rows) (i q : Uuid) (x : OrderItem)
      → e.stock_item (e.insert_item i x r) q ≡ e.stock_item r q
  pub order-update_stock :
      (r : e.Rows) (p j : Uuid) (f : StockItem → StockItem)
      → e.order (e.update_stock_item p f r) j ≡ e.order r j
  pub order-insert :
      (r : e.Rows) (i j : Uuid) (o : Order)
      → e.order (e.insert_order i o r) j ≡ (if i == j then some o else e.order r j)
  pub order-update :
      (r : e.Rows) (i j : Uuid) (f : Order → Order)
      → e.order (e.update_order i f r) j
        ≡ (if i == j then Option.map f (e.order r j) else e.order r j)
  pub order-insert_item :
      (r : e.Rows) (i j : Uuid) (x : OrderItem) → e.order (e.insert_item i x r) j ≡ e.order r j
  pub items-update_stock :
      (r : e.Rows) (p j : Uuid) (f : StockItem → StockItem)
      → e.items (e.update_stock_item p f r) j ≡ e.items r j
  pub items-insert_order :
      (r : e.Rows) (i j : Uuid) (o : Order) → e.items (e.insert_order i o r) j ≡ e.items r j
  pub items-update_order :
      (r : e.Rows) (i j : Uuid) (f : Order → Order) → e.items (e.update_order i f r) j ≡ e.items r j
  pub items-insert :
      (r : e.Rows) (i : Uuid) (x : OrderItem)
      → Perm (e.items (e.insert_item i x r) i) (x ∷ e.items r i)
  pub items-insert_ne :
      (r : e.Rows) (i j : Uuid) (x : OrderItem)
      → (i == j) ≡ false
      → e.items (e.insert_item i x r) j ≡ e.items r j
  pub product-update_stock :
      (r : e.Rows) (p j : Uuid) (f : StockItem → StockItem)
      → e.product (e.update_stock_item p f r) j ≡ e.product r j
  pub product-insert_order :
      (r : e.Rows) (i j : Uuid) (o : Order) → e.product (e.insert_order i o r) j ≡ e.product r j
  pub product-update_order :
      (r : e.Rows) (i j : Uuid) (f : Order → Order)
      → e.product (e.update_order i f r) j ≡ e.product r j
  pub product-insert_item :
      (r : e.Rows) (i j : Uuid) (x : OrderItem) → e.product (e.insert_item i x r) j ≡ e.product r j

-- ===== src/Orders/Up/Transitions.antt =====
-- A producer that is up stays up through the steps of a payment and of a cancellation.
use orbit_commerce_platform.Orders.Up.{publish_stock_event-StaysUp, save_row-StaysUp}
use orbit_commerce_platform.Common.Exceptions.{does_not_exist}
use orbit_commerce_platform.Inventory.Writes.{
  save_and_publish, set_reserved, set_counts, committed, released,
}
use orbit_commerce_platform.Inventory.StockItem.{StockItem}
use orbit_commerce_platform.Orders.Models.{OrderItem}
use orbit_commerce_platform.Catalog.Models.{Uuid}
use orbit_commerce_platform.Orders.Services.{commit_items, release_items}
use orbit_commerce_platform.Inventory.Services.{
  save_stock_item, release_stock, commit_stock, get_stock_item, publish_stock_event,
}
use orbit_commerce_platform.Platform.Env.{Env}
use orbit_commerce_platform.Platform.Up.{StaysUp, or_raise-StaysUp, atomic-StaysUp, >>=-StaysUp}
use orbit_commerce_platform.Platform.Exec.{Exec, ◌>>◌, pure}
use orbit_commerce_platform.Prelude.{ℕ, ◌-◌, ◌∷◌, [], List, String}

module _ {e : Env} where
  -- The end that a release and a commit share.
  save_and_publish-StaysUp :
      (event_type : String) (p : Uuid) (quantity : ℕ) (set : StockItem → StockItem) (s : StockItem)
      → StaysUp {e = e} (save_and_publish event_type p quantity set s)
  unfolding save_stock_item
  save_and_publish-StaysUp event_type p quantity set s =
      let told : Exec e StockItem = publish_stock_event event_type p s quantity >> pure s in
      >>=-StaysUp {A = Unit} {B = StockItem} (λ _. told)
        (λ _.
          >>=-StaysUp {A = Unit} {B = StockItem} (λ _. pure s) (λ _ w up. up)
            (publish_stock_event event_type p s quantity)
            (publish_stock_event-StaysUp event_type p s quantity))
        (save_stock_item p set) (λ w. save_row-StaysUp p set (e.stock_item w.rows p) w)

  release_stock-StaysUp : (p : Uuid) (q : ℕ) → StaysUp {e = e} (release_stock p q)
  unfolding release_stock get_stock_item
  release_stock-StaysUp p q = atomic-StaysUp _ (
      >>=-StaysUp {A = StockItem} {B = StockItem} _
        (λ s w.
          save_and_publish-StaysUp "stock.released" p q
            (set_reserved w.now (s.reserved_quantity - q)) (released w.now q s) w)
        _ (λ w. or_raise-StaysUp (e.stock_item w.rows p) does_not_exist w))

  commit_stock-StaysUp : (p : Uuid) (q : ℕ) → StaysUp {e = e} (commit_stock p q)
  unfolding commit_stock get_stock_item
  commit_stock-StaysUp p q = atomic-StaysUp _ (
      >>=-StaysUp {A = StockItem} {B = StockItem} _
        (λ s w.
          save_and_publish-StaysUp "stock.committed" p q
            (set_counts w.now (s.quantity - q) (s.reserved_quantity - q)) (committed w.now q s) w)
        _ (λ w. or_raise-StaysUp (e.stock_item w.rows p) does_not_exist w))

  pub release_items-StaysUp : (items : List OrderItem) → StaysUp {e = e} (release_items items)
  unfolding release_items
  release_items-StaysUp [] = λ w up. up
  release_items-StaysUp (item ∷ rest) =
      >>=-StaysUp {A = StockItem} {B = Unit} (λ _. release_items rest)
        (λ _. release_items-StaysUp rest) (release_stock item.product item.quantity)
        (release_stock-StaysUp item.product item.quantity)

  pub commit_items-StaysUp : (items : List OrderItem) → StaysUp {e = e} (commit_items items)
  unfolding commit_items
  commit_items-StaysUp [] = λ w up. up
  commit_items-StaysUp (item ∷ rest) =
      >>=-StaysUp {A = StockItem} {B = Unit} (λ _. commit_items rest)
        (λ _. commit_items-StaysUp rest) (commit_stock item.product item.quantity)
        (commit_stock-StaysUp item.product item.quantity)

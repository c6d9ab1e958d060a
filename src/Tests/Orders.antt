-- ===== src/Tests/Orders.antt =====
-- orders/services.py
use orbit_commerce_platform.Inventory.StockItem.{available_quantity}
use orbit_commerce_platform.Common.Kafka.{publish_event}
use orbit_commerce_platform.Orders.Counters.{quantity_at}
use orbit_commerce_platform.Orders.Ledger.Invariant.{stock_is_conserved, next, here, place, cancel}
use orbit_commerce_platform.Orders.Ledger.Balanced.{Balanced}
use orbit_commerce_platform.Inventory.Services.{reserve_stock}
use orbit_commerce_platform.Common.Exceptions.{ok}
use orbit_commerce_platform.Catalog.Models.{Uuid}
use orbit_commerce_platform.Orders.Transitions.{
  Moved, all_units, no_units, mark_order_paid_atomic, cancel_order_atomic,
}
use orbit_commerce_platform.Platform.Memory.{memory, memory-IsDatabase}
use orbit_commerce_platform.Tests.Data.{shop, two_mugs, too_many}
use orbit_commerce_platform.Orders.Place.{Created, place_order_atomic}
use orbit_commerce_platform.Platform.Exec.{World}
use orbit_commerce_platform.Platform.Post.{Post, SameRows}
use orbit_commerce_platform.Orders.Services.{
  cancel_order, place_order, new_order, get_product, create_item, mark_order_paid,
}
use orbit_commerce_platform.Orders.Models.{Order, shipped, paid, pending, cancelled}
use orbit_commerce_platform.Prelude.{List, pos, ◌≡◌, ◌+ℤ◌, ◌*ℤ◌, arith, refl, some}

abbrev placed : World memory
placed = (place_order 77 3 two_mugs shop).1

abbrev placed_order : Order
placed_order = record (new_order 3 7) { total_amount = pos 2000 }

place_two_mugs : (place_order 77 3 two_mugs shop).0 ≡ ok placed_order
unfolding place_order get_product reserve_stock create_item publish_event ◌+ℤ◌ ◌*ℤ◌ new_order
    available_quantity
place_two_mugs = refl

placed_row : placed.rows.orders 77 ≡ some placed_order
unfolding place_order get_product reserve_stock create_item publish_event ◌+ℤ◌ ◌*ℤ◌ new_order
    available_quantity
placed_row = refl

place_order_atomic_example :
    Post (Created 77 3 too_many shop) (SameRows shop) (place_order 77 3 too_many shop)
place_order_atomic_example = place_order_atomic memory-IsDatabase 77 3 too_many shop (λ e. refl)

mark_order_paid_atomic_example :
    Post
      (Moved paid all_units 77 placed_order placed)
      (SameRows placed)
      (mark_order_paid 77 placed_order placed)
mark_order_paid_atomic_example = mark_order_paid_atomic memory-IsDatabase 77 placed_order placed

cancel_order_atomic_example :
    Post
      (λ o' w'.
        (placed_order.status ≡ pending) × Moved cancelled no_units 77 placed_order placed o' w')
      (SameRows placed)
      (cancel_order 77 placed_order placed)
cancel_order_atomic_example = cancel_order_atomic memory-IsDatabase 77 placed_order placed

abbrev shipped_order : Order
shipped_order = record (new_order 3 7) { status = shipped }

stock_is_conserved_example :
    (ids : List Uuid) × Balanced (quantity_at shop) ids (cancel_order 77 placed_order placed).1
unfolding new_order
stock_is_conserved_example =
    stock_is_conserved memory-IsDatabase shop (cancel_order 77 placed_order placed).1 (λ j. refl)
      (λ j. refl) (λ p. ground arith)
      (next (next here (place 77 3 two_mugs)) (cancel 77 placed_order placed_row))

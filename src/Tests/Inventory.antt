-- ===== src/Tests/Inventory.antt =====
-- inventory/services.py
use orbit_commerce_platform.Platform.Memory.{memory-IsDatabase}
use orbit_commerce_platform.Common.Exceptions.{err, insufficient_stock}
use orbit_commerce_platform.Inventory.Reservation.{release-reserve, reserve_stock_exact}
use orbit_commerce_platform.Tests.Data.{shop, mug_stock, mug}
use orbit_commerce_platform.Common.Kafka.{publish_event}
use orbit_commerce_platform.Inventory.Invariant.{
  IsConsistent, AllConsistent, run, reserve, commit, release, run-AllConsistent,
}
use orbit_commerce_platform.Inventory.Services.{reserve_stock, release_stock}
use orbit_commerce_platform.Inventory.Writes.{StockWrite, Saves, reserved}
use orbit_commerce_platform.Inventory.StockItem.{available_quantity}
use orbit_commerce_platform.Prelude.{◌≤◌, ◌<◌, arith, ◌≡◌, ◌∷◌, ◌⊎◌, refl, []}

mug_stock-IsConsistent : IsConsistent mug_stock
mug_stock-IsConsistent = omega arith

shop-AllConsistent : AllConsistent shop
shop-AllConsistent = record { at = λ p s there. ground arith }

run-AllConsistent_example :
    AllConsistent (run (reserve 1 4 ∷ reserve 1 2 ∷ commit 1 3 ∷ release 1 9 ∷ []) shop)
run-AllConsistent_example =
    run-AllConsistent memory-IsDatabase (reserve 1 4 ∷ reserve 1 2 ∷ commit 1 3 ∷ release 1 9 ∷ [])
      shop shop-AllConsistent

reserve_stock_exact_example :
    ((5 < 6) × (reserve_stock 1 6 shop ≡ (err (insufficient_stock 5 "Mug"), shop)))
    ⊎ ((6 ≤ 5)
        × Saves "stock.reserved" 1 6 mug_stock
            (reserved 7 6 mug_stock)
            shop
            (reserve_stock 1 6 shop))
unfolding available_quantity
reserve_stock_exact_example =
    reserve_stock_exact memory-IsDatabase 1 6 shop {s = mug_stock} {product = mug} refl refl
      mug_stock-IsConsistent

two_are_available : 2 ≤ available_quantity mug_stock
unfolding available_quantity
two_are_available = omega arith

release-reserve_example :
    StockWrite 1 mug_stock
      (record mug_stock { updated_at = 7 })
      shop
      (release_stock 1 2 (reserve_stock 1 2 shop).1).1
release-reserve_example =
    release-reserve memory-IsDatabase 1 2 shop {product = mug} refl refl mug_stock-IsConsistent
      two_are_available

-- The fifth mug is the last: of two customers who want three each, the second is refused.
last_units : (reserve_stock 1 3 (reserve_stock 1 3 shop).1).0 ≡ err (insufficient_stock 2 "Mug")
unfolding reserve_stock publish_event available_quantity
last_units = refl

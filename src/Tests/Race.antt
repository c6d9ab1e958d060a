-- ===== src/Tests/Race.antt =====
-- Two orders of two mugs each, and two requests that cancel the first one.
use orbit_commerce_platform.Common.Exceptions.{not_cancellable}
use orbit_commerce_platform.Orders.Race.Once.{
  Serial, cancellations, passed, serial_cancels_once, nothing, failed,
}
use orbit_commerce_platform.Inventory.StockItem.{available_quantity}
use orbit_commerce_platform.Common.Kafka.{publish_event}
use orbit_commerce_platform.Inventory.Services.{reserve_stock, release_stock}
use orbit_commerce_platform.Tests.Data.{two_mugs, shop}
use orbit_commerce_platform.Orders.Services.{
  cancel_order, new_order, place_order, get_product, create_item,
}
use orbit_commerce_platform.Orders.Race.Counts.{Counted, race_counts}
use orbit_commerce_platform.Platform.Exec.{World}
use orbit_commerce_platform.Orders.Counters.{reserved_at}
use orbit_commerce_platform.Catalog.Models.{Uuid}
use orbit_commerce_platform.Orders.Models.{Order, cancelled}
use orbit_commerce_platform.Platform.Memory.{memory, memory-IsDatabase}
use orbit_commerce_platform.Orders.Race.{
  Race, Reach, cancels, later, act, Action, at_first, loads, returns,
}
use orbit_commerce_platform.Prelude.{◌≡◌, ◌≤◌, ◌∷◌, [], ℕ, pos, refl, ◌+ℤ◌, ◌*ℤ◌}

abbrev two_placed : World memory
two_placed = (place_order 78 4 two_mugs (place_order 77 3 two_mugs shop).1).1

abbrev first_order : Order
first_order = record (new_order 3 7) { total_amount = pos 2000 }

abbrev both_cancel : ℕ → Action
both_cancel i = cancels

abbrev the_first : ℕ → Uuid
the_first i = 77

-- Both load the pending order, and then each calls the service.
both_cancelled : (s : Race memory) × Reach both_cancel the_first two_placed s
unfolding act cancel_order place_order get_product reserve_stock release_stock create_item
    publish_event ◌+ℤ◌ ◌*ℤ◌ new_order available_quantity
both_cancelled =
    let r1 : Reach both_cancel the_first two_placed _ = later at_first (loads 0 first_order refl) in
    let r2 : Reach both_cancel the_first two_placed _ = later r1 (loads 1 first_order refl) in
    let r3 : Reach both_cancel the_first two_placed _ =
      later r2 (returns 0 first_order (record first_order { status = cancelled }) refl refl) in
    let r4 : Reach both_cancel the_first two_placed _ =
      later r3 (returns 1 first_order (record first_order { status = cancelled }) refl refl) in
    (_, r4)

race_counts_example : Counted both_cancel the_first two_placed both_cancelled.0
race_counts_example =
    race_counts memory-IsDatabase both_cancel the_first two_placed both_cancelled.0 both_cancelled.1

-- The units that the second order still holds have been released too.
all_released : reserved_at both_cancelled.0.world 1 ≡ 0
unfolding both_cancelled
all_released = refl

-- The same requests, the second after the first: it finds the order cancelled.
one_cancelled : (v : World memory) × Serial both_cancel the_first two_placed v (0 ∷ [])
unfolding act cancel_order place_order get_product reserve_stock release_stock create_item
    publish_event ◌+ℤ◌ ◌*ℤ◌ new_order available_quantity
one_cancelled =
    let cancelled_order : Order = record first_order { status = cancelled } in
    let r1 : Serial both_cancel the_first two_placed _ (0 ∷ []) =
      passed 0 first_order cancelled_order nothing refl refl in
    let r2 : Serial both_cancel the_first two_placed _ (0 ∷ []) =
      failed 1 cancelled_order (not_cancellable cancelled) r1 refl refl in
    (_, r2)

serial_cancels_once_example : cancellations both_cancel the_first 77 (0 ∷ []) ≤ 1
serial_cancels_once_example =
    serial_cancels_once memory-IsDatabase both_cancel the_first two_placed one_cancelled.0 (0 ∷ [])
      77 one_cancelled.1

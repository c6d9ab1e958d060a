-- ===== src/Tests/Announced.antt =====
-- The order of two mugs in the shop whose producer is up, and the list of customer 3.
use orbit_commerce_platform.Notifications.Listing.Customers.{
  CustomersListed, run_loop-CustomersListed,
}
use orbit_commerce_platform.Notifications.Consumer.{State, run_loop}
use orbit_commerce_platform.Orders.Announced.Later.{kind_of, act-Shown}
use orbit_commerce_platform.Orders.Race.{act, cancels}
use orbit_commerce_platform.Inventory.StockItem.{available_quantity}
use orbit_commerce_platform.Common.Kafka.{present, publish_event, Message}
use orbit_commerce_platform.Inventory.Services.{reserve_stock, release_stock}
use orbit_commerce_platform.Tests.Data.{shop, two_mugs}
use orbit_commerce_platform.Orders.Models.{Order, cancelled}
use orbit_commerce_platform.Catalog.Models.{Uuid}
use orbit_commerce_platform.Platform.Exec.{World}
use orbit_commerce_platform.Orders.Services.{
  place_order, new_order, get_product, create_item, order_event_payload, cancel_order,
}
use orbit_commerce_platform.Notifications.Store.Memory.{memory_redis-IsRedis}
use orbit_commerce_platform.Platform.Memory.{memory, memory-IsDatabase}
use orbit_commerce_platform.Tests.Notifications.{feed, takes, written, quiet, paid_message}
use orbit_commerce_platform.Orders.Announced.{place_order-Shown, Shown}
use orbit_commerce_platform.Prelude.{
  ◌+◌, ◌≡◌, ◌∷◌, ◌++◌, [], ℤ, List, Text, ◌+ℤ◌, ◌*ℤ◌, codes, refl, arith, pos,
}

abbrev digit : Uuid → Text
digit u = (48 + u) ∷ []

abbrev price_text : ℤ → Text
price_text z = codes "20.00"

abbrev open_shop : World memory
open_shop = record shop { bus = record { producer = present; delivered = [] } }

abbrev mug_order : Order
mug_order = record (new_order 3 7) { total_amount = pos 2000 }

-- The consumer has handled one message before.
abbrev told : State feed
told = (run_loop feed 600 takes written (paid_message ∷ []) quiet).1

told-CustomersListed : CustomersListed feed memory_redis-IsRedis 600 9 told.history
told-CustomersListed =
    let (from, le, listed) =
      run_loop-CustomersListed feed memory_redis-IsRedis 600 takes written (paid_message ∷ []) 0 9
        quiet (omega arith, omega arith) (λ t after k ne. tt) in
    λ t later. listed t (omega (arith, le, later))

place_order-Shown_example :
    (before : List Message) × ((m : Message) × ((place_order 77 3 two_mugs
          open_shop).1.bus.delivered
        ≡ before ++ m ∷ [])
      × (m.payload ≡ order_event_payload 77 mug_order)
      × Shown digit price_text feed memory_redis-IsRedis 600 takes written m
          (codes "3")
          1
          9
          20
          told)
unfolding place_order get_product reserve_stock create_item publish_event ◌+ℤ◌ ◌*ℤ◌ new_order
    available_quantity
place_order-Shown_example =
    place_order-Shown digit price_text feed memory_redis-IsRedis 600 takes written memory-IsDatabase
      (λ t m. refl) 77 3 two_mugs open_shop mug_order 1 9 20 told refl (λ h. refl) refl (λ h. cc)
      (λ h. cc) told-CustomersListed (omega arith) (omega arith) (omega arith)

abbrev sold_shop : World memory
sold_shop = (place_order 77 3 two_mugs open_shop).1

abbrev dropped_order : Order
dropped_order = record mug_order { status = cancelled }

act-Shown_example :
    (before : List Message) × ((m : Message) × ((act cancels 77 mug_order sold_shop).1.bus.delivered
        ≡ before ++ m ∷ [])
      × (m.event_type ≡ kind_of cancels)
      × (m.payload ≡ order_event_payload 77 dropped_order)
      × Shown digit price_text feed memory_redis-IsRedis 600 takes written m
          (codes "3")
          1
          9
          20
          told)
unfolding act cancel_order place_order get_product reserve_stock release_stock create_item
    publish_event ◌+ℤ◌ ◌*ℤ◌ new_order available_quantity
act-Shown_example =
    act-Shown digit price_text feed memory_redis-IsRedis 600 takes written {e = memory}
      (λ t m. refl) cancels 77 mug_order dropped_order sold_shop 1 9 20 told refl refl (λ h. cc)
      (λ h. cc) told-CustomersListed (omega arith) (omega arith) (omega arith)

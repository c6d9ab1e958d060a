-- ===== src/Tests/Api.antt =====
-- orders/views.py, orders/serializers.py and common/idempotency.py
use orbit_commerce_platform.Inventory.StockItem.{available_quantity}
use orbit_commerce_platform.Orders.Api.Validation.{ValidLine, as_input, validate_exact}
use orbit_commerce_platform.Common.Kafka.{publish_event}
use orbit_commerce_platform.Inventory.Services.{reserve_stock}
use orbit_commerce_platform.Orders.Api.Laws.{
  create_retry, others_hidden, create_in_progress, entry_key, create_failure,
}
use orbit_commerce_platform.Tests.Data.{shop, two_mugs}
use orbit_commerce_platform.Common.Exceptions.{err, not_found, ok, insufficient_stock}
use orbit_commerce_platform.Platform.Memory.{memory, memory-IsDatabase}
use orbit_commerce_platform.Common.Idempotency.Memory.{memory_cache, memory_cache-IsCache}
use orbit_commerce_platform.Orders.Services.{new_order, place_order, get_product, create_item}
use orbit_commerce_platform.Orders.Models.{Order}
use orbit_commerce_platform.Platform.Exec.{World}
use orbit_commerce_platform.Common.Idempotency.{begin, Cache, abandon, complete}
use orbit_commerce_platform.Catalog.Models.{Uuid, Time}
use orbit_commerce_platform.Orders.Api.{
  Requester, validate_items, pay, create, Response, InputLine, validate_lines, an_order, cancel,
  key_in_progress, order_body,
}
use orbit_commerce_platform.Prelude.{
  ◌≡◌, ◌∷◌, [], ◌≢◌, ◌↔◌, none, codes, List, Text, some, false, pos, arith, refl, All, ◌+ℤ◌, map,
  ◌*ℤ◌,
}

abbrev cache : Cache Response
cache = memory_cache

abbrev empty : cache.Store
empty t k = none

abbrev render : Uuid → Text
render k = k ∷ []

abbrev alice : Requester
alice = record { id = 3; is_staff = false }

abbrev bob : Requester
bob = record { id = 4; is_staff = false }

abbrev basket : List InputLine
basket = record { product_id = 1; quantity = pos 2 } ∷ []

abbrev sold_out : List InputLine
sold_out = record { product_id = 2; quantity = pos 3 } ∷ []

abbrev unfit : List InputLine
unfit = record { product_id = 1; quantity = pos 0 } ∷ []

abbrev created : World memory × cache.Store
created = (create cache render 77 alice (some (codes "k1")) basket (λ t. t) (shop, empty)).1

abbrev created_response : Response
created_response = record {
  status_code = 201;
  body = an_order (record {
    id = 77;
    status = "pending";
    total_amount = pos 2000;
    items =
        record {
          product = 1;
          product_sku = some "MUG";
          product_name = some "Mug";
          quantity = 2;
          unit_price = pos 1000;
        }
        ∷ [];
    created_at = 7;
    updated_at = 7;
  });
}

create_two_mugs :
    create cache render 77 alice (some (codes "k1")) basket (λ t. t) (shop, empty)
    ≡ (ok created_response, created)
unfolding create place_order get_product reserve_stock create_item publish_event ◌+ℤ◌ ◌*ℤ◌ new_order
    available_quantity validate_lines validate_items order_body begin complete
create_two_mugs = refl

created_at_seven : created.0.now ≡ 7
unfolding create place_order get_product reserve_stock create_item publish_event ◌+ℤ◌ ◌*ℤ◌ new_order
    available_quantity validate_lines validate_items order_body begin complete
created_at_seven = refl

abbrev later : World memory
later = record (created.0) { now = 500 }

create_retry_example :
    create cache render 78 alice (some (codes "k1")) basket (λ t. empty) (later, created.1)
    ≡ (ok created_response, (later, created.1))
create_retry_example =
    create_retry cache memory_cache-IsCache render alice 107 (49 ∷ []) 77 78 basket basket shop
      created.0 later created_response empty created.1 (λ t. empty) refl create_two_mugs
      (omega (arith, created_at_seven)) (omega (arith, created_at_seven))

create_in_progress_example :
    create cache render 78 alice
      (some (codes "k1"))
      basket
      (λ t. empty)
      (shop, (begin cache 7 (codes "order-create") (render 3) (codes "k1") (λ t. t) empty).1)
    ≡ (
      ok (record { status_code = 409; body = key_in_progress }),
      (shop, (begin cache 7 (codes "order-create") (render 3) (codes "k1") (λ t. t) empty).1),
    )
create_in_progress_example =
    create_in_progress cache memory_cache-IsCache render alice 107 (49 ∷ []) 78 basket 7 shop empty
      (λ t. empty) refl (omega arith) (omega arith)

abbrev failed : World memory × cache.Store
failed = (create cache render 77 alice (some (codes "k1")) sold_out (λ t. t) (shop, empty)).1

order_sold_out :
    create cache render 77 alice (some (codes "k1")) sold_out (λ t. t) (shop, empty)
    ≡ (err (insufficient_stock 1 "Poster"), failed)
unfolding create place_order get_product reserve_stock create_item publish_event ◌+ℤ◌ ◌*ℤ◌ new_order
    available_quantity validate_lines validate_items order_body begin abandon
order_sold_out = refl

create_failure_example :
    (failed.0.rows ≡ shop.rows)
    × ((t : Time) → cache.get t (entry_key render alice (codes "k1")) failed.1 ≡ none)
create_failure_example =
    create_failure cache memory_cache-IsCache render alice 107 (49 ∷ []) memory-IsDatabase 77
      sold_out shop failed.0 (insufficient_stock 1 "Poster") empty failed.1 (λ fresh. refl) refl
      order_sold_out

abbrev owned : Order
owned = record (new_order 3 7) { total_amount = pos 2000 }

owned_row : created.0.rows.orders 77 ≡ some owned
unfolding create place_order get_product reserve_stock create_item publish_event ◌+ℤ◌ ◌*ℤ◌ new_order
    available_quantity validate_lines validate_items order_body begin complete
owned_row = refl

others_hidden_example :
    (pay bob 77 created.0 ≡ (err not_found, created.0))
    × (cancel bob 77 created.0 ≡ (err not_found, created.0))
unfolding new_order
others_hidden_example = others_hidden bob 77 owned created.0 owned_row refl refl

validate_exact_example :
    (validate_items (validate_lines memory shop.rows basket) ≡ some two_mugs) ↔ (
      (two_mugs ≢ [])
      × (All (ValidLine memory shop.rows) two_mugs × (basket ≡ map as_input two_mugs)))
validate_exact_example = validate_exact memory shop.rows basket two_mugs

-- ===== src/Tests/Data.antt =====
-- A small shop: product 1 with five units, product 2 with one, and no orders.
use orbit_commerce_platform.Common.Kafka.{uncalled}
use orbit_commerce_platform.Platform.Memory.{memory, update}
use orbit_commerce_platform.Orders.Models.{OrderItem}
use orbit_commerce_platform.Orders.Services.{Line}
use orbit_commerce_platform.Catalog.Models.{Uuid, Product}
use orbit_commerce_platform.Platform.Exec.{World}
use orbit_commerce_platform.Inventory.StockItem.{StockItem}
use orbit_commerce_platform.Prelude.{List, Option, pos, true, none, ◌∷◌, [], some}

abbrev pub mug : Product
mug = record {
  category = 9;
  sku = "MUG";
  name = "Mug";
  description = "";
  price = pos 1000;
  is_active = true;
  created_at = 0;
}

abbrev pub poster : Product
poster = record mug { sku = "POSTER"; name = "Poster"; price = pos 500 }

abbrev pub mug_stock : StockItem
mug_stock = record { quantity = 5; reserved_quantity = 0; reorder_threshold = 10; updated_at = 0 }

abbrev pub poster_stock : StockItem
poster_stock = record mug_stock { quantity = 1 }

abbrev pub no_row {ℓ} : {A : Type ℓ} → Uuid → Option A
no_row k = none

abbrev pub no_rows : Uuid → List OrderItem
no_rows k = []

abbrev pub shop : World memory
shop = record {
  rows = record {
    products = update 1 (some mug) (update 2 (some poster) no_row);
    stock_items = update 1 (some mug_stock) (update 2 (some poster_stock) no_row);
    orders = no_row;
    order_items = no_rows;
  };
  now = 7;
  bus = record { producer = uncalled; delivered = [] };
  tasks = [];
}

abbrev pub two_mugs : List Line
two_mugs = record { product_id = 1; quantity = 2 } ∷ []

abbrev pub mixed_lines : List Line
mixed_lines = record { product_id = 1; quantity = 2 } ∷ record { product_id = 2; quantity = 1 } ∷ []

-- The second line asks for more posters than there are.
abbrev pub too_many : List Line
too_many = record { product_id = 1; quantity = 2 } ∷ record { product_id = 2; quantity = 3 } ∷ []

abbrev pub two_mug_items : List OrderItem
two_mug_items = record { product = 1; quantity = 2; unit_price = pos 1000 } ∷ []

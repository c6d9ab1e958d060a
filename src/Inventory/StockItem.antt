-- ===== src/Inventory/StockItem.antt =====
-- The table of services/core_api/apps/inventory/models.py and its two computed properties.
-- The key of a row is its product.
use orbit_commerce_platform.Prelude.{ℕ, ◌-◌, Bool, leb}
use orbit_commerce_platform.Catalog.Models.{Time}

pub record StockItem : Type 0 where
  pub quantity : ℕ
  pub reserved_quantity : ℕ
  pub reorder_threshold : ℕ
  pub updated_at : Time

-- `max(self.quantity - self.reserved_quantity, 0)`: the difference of numbers stops at 0.
unfoldable pub available_quantity : StockItem → ℕ
available_quantity s = s.quantity - s.reserved_quantity

unfoldable pub is_below_reorder_threshold : StockItem → Bool
unfolding available_quantity
is_below_reorder_threshold s = leb (available_quantity s) s.reorder_threshold

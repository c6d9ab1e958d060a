-- ===== src/Orders/Models.antt =====
-- The tables of services/core_api/apps/orders/models.py.
use orbit_commerce_platform.Prelude.{ℕ, String, ℤ, pos, ◌+ℤ◌, ◌*ℤ◌, List, [], ◌∷◌}
use orbit_commerce_platform.Catalog.Models.{Uuid, Time}

pub data Status : Type 0 where
  pending paid shipped delivered cancelled : Status

-- The value that `TextChoices` stores for a status.
unfoldable pub status_value : Status → String
status_value pending = "pending"
status_value paid = "paid"
status_value shipped = "shipped"
status_value delivered = "delivered"
status_value cancelled = "cancelled"

pub record Order : Type 0 where
  pub customer : Uuid
  pub status : Status
  pub total_amount : ℤ
  pub created_at : Time
  pub updated_at : Time

pub record OrderItem : Type 0 where
  pub product : Uuid
  pub quantity : ℕ
  pub unit_price : ℤ

unfoldable pub subtotal : OrderItem → ℤ
subtotal i = i.unit_price *ℤ pos i.quantity

-- `sum(..., start=Decimal("0"))` over the items, from the left.
unfoldable pub sum_from : ℤ → List OrderItem → ℤ
sum_from acc [] = acc
sum_from acc (i ∷ rest) = sum_from (acc +ℤ i.unit_price *ℤ pos i.quantity) rest

-- The method assigns the total to the instance; it reads the items from the database.
unfoldable pub recalculate_total : List OrderItem → Order → Order
unfolding sum_from
recalculate_total items o = record o { total_amount = sum_from (pos 0) items }

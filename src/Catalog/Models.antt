-- ===== src/Catalog/Models.antt =====
-- The tables of services/core_api/apps/catalog/models.py. A UUID is a number, since the code only
-- compares, stores and prints them; an amount of money is a whole number of cents, since the
-- columns hold two decimals; a time is a number of seconds. A record holds the columns of a row
-- beside its key, which is the argument of the operations that read and write it.
use orbit_commerce_platform.Prelude.{ℕ, String, ℤ, Bool}

abbrev pub Uuid : Type 0
Uuid = ℕ

abbrev pub Time : Type 0
Time = ℕ

pub record Category : Type 0 where
  pub name : String
  pub slug : String
  pub created_at : Time

pub record Product : Type 0 where
  pub category : Uuid
  pub sku : String
  pub name : String
  pub description : String
  pub price : ℤ
  pub is_active : Bool
  pub created_at : Time

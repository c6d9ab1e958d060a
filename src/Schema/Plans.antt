-- ===== src/Schema/Plans.antt =====
-- The orders in which the migrations of services/core_api/apps can be applied.
pub mod Tables
pub mod Columns
pub mod Migrated
use orbit_commerce_platform.Schema.Migrations.{
  Name, users_0001, operations, catalog_0001, inventory_0001, orders_0001, orders_0002,
  dependencies,
}
use orbit_commerce_platform.Schema.{
  Field, Table, Migrator, plain, Operation, char_field, date_time_field, boolean_field, flag,
  many_to_many_field,
}
use mathlib.Core.List.{Perm}
use mathlib.Core.Option
use orbit_commerce_platform.Prelude.{
  ◌≡◌, ◌∷◌, [], ◌++◌, Bool, List, Option, none, some, true, false, codes,
}

-- Which migrations have been applied.
pub record Applied : Type 0 where
  pub users : Bool
  pub catalog : Bool
  pub inventory : Bool
  pub orders : Bool
  pub relations : Bool

abbrev pub is_applied : Name → Applied → Bool
is_applied users_0001 a = a.users
is_applied catalog_0001 a = a.catalog
is_applied inventory_0001 a = a.inventory
is_applied orders_0001 a = a.orders
is_applied orders_0002 a = a.relations

abbrev pub mark : Name → Applied → Applied
mark users_0001 a = record a { users = true }
mark catalog_0001 a = record a { catalog = true }
mark inventory_0001 a = record a { inventory = true }
mark orders_0001 a = record a { orders = true }
mark orders_0002 a = record a { relations = true }

abbrev pub AllApplied : List Name → Applied → Type 0
AllApplied [] a = true ≡ true
AllApplied (n ∷ ns) a = (is_applied n a ≡ true) × AllApplied ns a

-- Every migration that is left comes once, after those it depends on.
abbrev pub Plan : Applied → List Name → Type 0
Plan a [] =
    AllApplied (users_0001 ∷ catalog_0001 ∷ inventory_0001 ∷ orders_0001 ∷ orders_0002 ∷ []) a
Plan a (n ∷ ns) = (is_applied n a ≡ false) × AllApplied (dependencies n) a × Plan (mark n a) ns

abbrev pub no_migration : Applied
no_migration = record {
  users = false;
  catalog = false;
  inventory = false;
  orders = false;
  relations = false;
}

-- The same columns in any order, and all else the same.
abbrev pub SameTable : Table → Table → Type 0
SameTable t u =
    Perm t.fields u.fields
    × (t.ordering ≡ u.ordering)
    × (t.indexes ≡ u.indexes)
    × (t.checks ≡ u.checks)

-- The columns that a user has from `AbstractBaseUser` and `PermissionsMixin`.
abbrev pub auth_fields : List Field
auth_fields =
    plain (codes "password") (char_field 128)
    ∷ record (plain (codes "last_login") date_time_field) {
      may_be_blank = true;
      may_be_null = true;
    }
    ∷ record (plain (codes "is_superuser") boolean_field) { default_value = flag false }
    ∷ record (plain (codes "groups") (many_to_many_field (codes "auth.group") (codes "user_set"))) {
      may_be_blank = true;
    }
    ∷ record (plain (codes "user_permissions")
        (many_to_many_field (codes "auth.permission") (codes "user_set"))) { may_be_blank = true }
    ∷ []

module _ (g : Migrator) where
  abbrev pub apply_all : List Operation → g.Data → Option g.Data
  apply_all [] d = some d
  apply_all (o ∷ os) d = Option.bind (g.apply o d) (λ d'. apply_all os d')

  abbrev pub migrate : List Name → g.Data → Option g.Data
  migrate [] d = some d
  migrate (n ∷ ns) d = Option.bind (apply_all (operations n) d) (λ d'. migrate ns d')

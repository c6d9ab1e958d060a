-- ===== src/Tests/Schema.antt =====
-- The migrations of orders first, and those they depend on in between.
use orbit_commerce_platform.Schema.Declared.{declared}
use orbit_commerce_platform.Schema.{Model, Table}
use orbit_commerce_platform.Schema.Plans.{Plan, no_migration, migrate, SameTable, auth_fields}
use orbit_commerce_platform.Schema.Migrations.{
  Name, orders_0001, users_0001, catalog_0001, orders_0002, inventory_0001,
}
use orbit_commerce_platform.Schema.Memory.{memory_migrator, memory_migrator-IsMigrator}
use orbit_commerce_platform.Schema.Plans.Migrated.{migrate-declared}
use orbit_commerce_platform.Prelude.{◌≡◌, ◌∷◌, [], List, refl, some}

abbrev orders_first : List Name
orders_first = orders_0001 ∷ users_0001 ∷ catalog_0001 ∷ orders_0002 ∷ inventory_0001 ∷ []

orders_first-Plan : Plan no_migration orders_first
orders_first-Plan = (
  refl,
  refl,
  (
    refl,
    refl,
    (
      refl,
      refl,
      (
        refl,
        (refl, (refl, (refl, refl))),
        (refl, (refl, refl), (refl, (refl, (refl, (refl, (refl, refl)))))),
      ),
    ),
  ),
)

migrate-declared_example :
    (d : memory_migrator.Data) × (migrate memory_migrator orders_first memory_migrator.nothing
      ≡ some d)
    × ((m : Model)
        → (t : Table) × (memory_migrator.table m d ≡ some t) × SameTable t (declared auth_fields m))
migrate-declared_example =
    migrate-declared memory_migrator memory_migrator-IsMigrator orders_first orders_first-Plan

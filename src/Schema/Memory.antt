-- ===== src/Schema/Memory.antt =====
-- A database of tables in memory that satisfies `IsMigrator`.
use orbit_commerce_platform.Schema.{Migrator, Model, IsMigrator, put_table, model_of, Table, change}
use orbit_commerce_platform.Prelude.{Option, none, some, refl}

abbrev pub Tables : Type 0
Tables = Model → Option Table

abbrev keep : Model → Option Table → Tables → Option Tables
keep m none d = none
keep m (some t) d = some (put_table m t d)

abbrev pub memory_migrator : Migrator
memory_migrator = record {
  Data = Tables;
  nothing = λ m. none;
  table = λ m d. d m;
  apply = λ o d. keep (model_of o) (change o (d (model_of o))) d;
}

pub memory_migrator-IsMigrator : IsMigrator memory_migrator
memory_migrator-IsMigrator = record {
  nothing_lem = λ m. refl;
  apply_lem = λ o t d changed known. (put_table (model_of o) t d, rw changed refl, λ k. refl);
}

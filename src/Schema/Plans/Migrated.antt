-- ===== src/Schema/Plans/Migrated.antt =====
-- Whatever order the migrations are applied in, the tables are those of the classes.
use orbit_commerce_platform.Schema.Plans.Columns.{final_SameTable}
use orbit_commerce_platform.Schema.Declared.{declared}
use orbit_commerce_platform.Schema.Plans.{
  Applied, Plan, no_migration, migrate, apply_all, SameTable, auth_fields, mark,
}
use orbit_commerce_platform.Schema.Plans.Tables.{
  tables_after, InStep, Runs, final_table, all_tables, step_Runs, mark-InStep, put_table_same,
}
use orbit_commerce_platform.Schema.Migrations.{Name, operations}
use orbit_commerce_platform.Schema.{
  Migrator, IsMigrator, Model, Operation, Table, Present, change, model_of, targets, put_table,
}
use mathlib.Core.Option
use orbit_commerce_platform.Schema.{
  user_model, category_model, product_model, stock_item_model, order_model, order_item_model,
}
use orbit_commerce_platform.Prelude.{◌≡◌, ◌∷◌, [], ◌∙◌, List, Option, some, refl, ap, inl}

module _ (g : Migrator) (laws : IsMigrator g) where
  abbrev Holds : (Model → Option Table) → g.Data → Type 0
  Holds f d = (k : Model) → g.table k d ≡ f k

  targets-Present :
      (ms : List Model) (f : Model → Option Table) (d : g.Data)
      → Holds f d
      → Present ms f
      → Present ms (λ m. g.table m d)
  targets-Present [] f d holds known = refl
  targets-Present (m ∷ ms) f d holds ((t, there), known) =
      ((t, holds m ∙ there), targets-Present ms f d holds known)

  apply_all-Runs :
      (os : List Operation) (f h : Model → Option Table) (d : g.Data)
      → Runs os f h
      → Holds f d
      → (d' : g.Data) × (apply_all g os d ≡ some d') × Holds h d'
  unfolding Option.bind
  apply_all-Runs [] f h d same holds = (d, refl, λ k. holds k ∙ same k)
  apply_all-Runs (o ∷ os) f h d (t, changed, known, runs) holds =
      let (d1, applied, after) =
        laws.apply_lem o t d (ap (λ x. change o x) (holds (model_of o)) ∙ changed)
          (targets-Present (targets o) f d holds known) in
      let (d2, rest, final) =
        apply_all-Runs os (put_table (model_of o) t f) h d1 runs
          (λ k. after k ∙ put_table_same (model_of o) t (λ m. g.table m d) f k (holds k)) in
      (d2, rw applied rest, final)

  migrate_from :
      (plan : List Name) (a : Applied) (d : g.Data)
      → InStep a
      → Plan a plan
      → Holds (tables_after a) d
      → (d' : g.Data) × (migrate g plan d ≡ some d')
        × ((m : Model) → g.table m d' ≡ some (final_table m))
  unfolding Option.bind
  migrate_from [] a d ok done holds = (d, refl, λ m. holds m ∙ all_tables a done m)
  migrate_from (n ∷ ns) a d ok (fresh, known, rest) holds =
      let (d1, applied, after) =
        apply_all-Runs (operations n) (tables_after a) (tables_after (mark n a)) d
          (step_Runs n a ok fresh known) holds in
      let (d2, migrated, final) =
        migrate_from ns (mark n a) d1 (mark-InStep n a ok known) rest after in
      (d2, rw applied migrated, final)

  nothing_Holds : Holds (tables_after no_migration) g.nothing
  nothing_Holds user_model = laws.nothing_lem user_model
  nothing_Holds category_model = laws.nothing_lem category_model
  nothing_Holds product_model = laws.nothing_lem product_model
  nothing_Holds stock_item_model = laws.nothing_lem stock_item_model
  nothing_Holds order_model = laws.nothing_lem order_model
  nothing_Holds order_item_model = laws.nothing_lem order_item_model

  -- In every order in which each migration comes once and after those it depends on, all
  -- migrations can be applied to an empty database, and the table of each model is then the one
  -- its class declares, up to the order of the columns.
  pub migrate-declared :
      (plan : List Name)
      → Plan no_migration plan
      → (d : g.Data) × (migrate g plan g.nothing ≡ some d)
        × ((m : Model)
            → (t : Table) × (g.table m d ≡ some t) × SameTable t (declared auth_fields m))
  migrate-declared plan planned =
      let (d, migrated, final) =
        migrate_from plan no_migration g.nothing (inl refl) planned nothing_Holds in
      (d, migrated, λ m. (final_table m, final m, final_SameTable m))

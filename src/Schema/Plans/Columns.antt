-- ===== src/Schema/Plans/Columns.antt =====
-- The columns after all migrations are those of the classes, the related ones in another place.
use orbit_commerce_platform.Schema.Declared.{
  declared, base_model_fields, user_fields, declared_category, product_category, product_fields,
  stock_item_product, stock_item_fields, order_customer, order_fields, order_item_fields,
  order_item_relations,
}
use orbit_commerce_platform.Schema.Plans.{SameTable, auth_fields}
use orbit_commerce_platform.Schema.Plans.Tables.{final_table}
use orbit_commerce_platform.Schema.{Model}
use mathlib.Core.List.Perm
use mathlib.Core.List.{Perm, perm_append_singleton, perm_append_comm, drop}
use orbit_commerce_platform.Schema.{
  user_model, category_model, product_model, stock_item_model, order_model, order_item_model,
}
use orbit_commerce_platform.Prelude.{◌∷◌, [], ◌++◌, List, refl, take}

-- The related fields stand last in a migration.
pub moved_last :
    {A : Type 0} (x : A) (before after : List A)
    → Perm (before ++ (after ++ x ∷ [])) (before ++ x ∷ after)
moved_last x before after = Perm.append_left before (perm_append_singleton x after)

pub same_fields : (m : Model) → Perm (final_table m).fields (declared auth_fields m).fields
same_fields user_model =
    Perm.append_left (take 3 auth_fields)
      (perm_append_comm (base_model_fields ++ user_fields) (drop 3 auth_fields))
same_fields category_model = Perm.refl declared_category.fields
same_fields product_model = moved_last product_category base_model_fields product_fields
same_fields stock_item_model = moved_last stock_item_product base_model_fields stock_item_fields
same_fields order_model = moved_last order_customer base_model_fields order_fields
same_fields order_item_model =
    Perm.append_left base_model_fields (perm_append_comm order_item_fields order_item_relations)

pub final_SameTable : (m : Model) → SameTable (final_table m) (declared auth_fields m)
final_SameTable user_model = (same_fields user_model, refl, refl, refl)
final_SameTable category_model = (same_fields category_model, refl, refl, refl)
final_SameTable product_model = (same_fields product_model, refl, refl, refl)
final_SameTable stock_item_model = (same_fields stock_item_model, refl, refl, refl)
final_SameTable order_model = (same_fields order_model, refl, refl, refl)
final_SameTable order_item_model = (same_fields order_item_model, refl, refl, refl)

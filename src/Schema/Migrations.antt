-- ===== src/Schema/Migrations.antt =====
-- The five migrations under services/core_api/apps, with their dependencies on one another; the
-- one of users also depends on those of Django's `auth`. Its manager is no part of a table.
use orbit_commerce_platform.Schema.{
  Operation, Table, add_field, plain, create_model, char_field, user_model, order_model,
  date_time_field, boolean_field, category_model, foreign_key, added, flag, saved, protects,
  product_model, uuid_field, order_item_model, stock_item_model, made, cascades, text_field,
  slug_field, email_field, positive_integer_field, add_index, words, add_constraint, count,
  decimal_field, many_to_many_field, one_to_one_field,
}
use orbit_commerce_platform.Prelude.{List, ◌∷◌, [], some, none, true, false, codes}

pub data Name : Type 0 where
  users_0001 catalog_0001 inventory_0001 orders_0001 orders_0002 : Name

abbrev pub dependencies : Name → List Name
dependencies users_0001 = []
dependencies catalog_0001 = []
dependencies inventory_0001 = catalog_0001 ∷ []
dependencies orders_0001 = []
dependencies orders_0002 = catalog_0001 ∷ orders_0001 ∷ users_0001 ∷ []

abbrev pub created_user : Table
created_user = record {
  fields =
      plain (codes "password") (char_field 128)
      ∷ record (plain (codes "last_login") date_time_field) {
        may_be_blank = true;
        may_be_null = true;
      }
      ∷ record (plain (codes "is_superuser") boolean_field) { default_value = flag false }
      ∷ record (plain (codes "created_at") date_time_field) {
        default_value = added;
        has_index = true;
      }
      ∷ record (plain (codes "updated_at") date_time_field) { default_value = saved }
      ∷ record (plain (codes "id") uuid_field) {
        default_value = made;
        is_key = true;
        is_editable = false;
      }
      ∷ record (plain (codes "email") (email_field 254)) { is_unique = true; has_index = true }
      ∷ record (plain (codes "first_name") (char_field 150)) { may_be_blank = true }
      ∷ record (plain (codes "last_name") (char_field 150)) { may_be_blank = true }
      ∷ record (plain (codes "role") (char_field 20)) {
        default_value = words (codes "customer");
        choices = codes "customer" ∷ codes "staff" ∷ codes "admin" ∷ [];
      }
      ∷ record (plain (codes "is_active") boolean_field) { default_value = flag true }
      ∷ record (plain (codes "is_staff") boolean_field) { default_value = flag false }
      ∷ record (plain (codes "groups")
          (many_to_many_field (codes "auth.group") (codes "user_set"))) { may_be_blank = true }
      ∷ record (plain (codes "user_permissions")
          (many_to_many_field (codes "auth.permission") (codes "user_set"))) { may_be_blank = true }
      ∷ [];
  ordering = codes "-created_at" ∷ [];
  indexes = [];
  checks = [];
}

abbrev pub created_category : Table
created_category = record {
  fields =
      record (plain (codes "created_at") date_time_field) {
        default_value = added;
        has_index = true;
      }
      ∷ record (plain (codes "updated_at") date_time_field) { default_value = saved }
      ∷ record (plain (codes "id") uuid_field) {
        default_value = made;
        is_key = true;
        is_editable = false;
      }
      ∷ record (plain (codes "name") (char_field 120)) { is_unique = true }
      ∷ record (plain (codes "slug") (slug_field 140)) { is_unique = true }
      ∷ [];
  ordering = codes "name" ∷ [];
  indexes = [];
  checks = [];
}

abbrev pub created_product : Table
created_product = record {
  fields =
      record (plain (codes "created_at") date_time_field) {
        default_value = added;
        has_index = true;
      }
      ∷ record (plain (codes "updated_at") date_time_field) { default_value = saved }
      ∷ record (plain (codes "id") uuid_field) {
        default_value = made;
        is_key = true;
        is_editable = false;
      }
      ∷ record (plain (codes "sku") (char_field 64)) { is_unique = true; has_index = true }
      ∷ plain (codes "name") (char_field 200)
      ∷ record (plain (codes "description") text_field) { may_be_blank = true }
      ∷ plain (codes "price") (decimal_field 10 2)
      ∷ record (plain (codes "is_active") boolean_field) { default_value = flag true }
      ∷ plain (codes "category") (foreign_key category_model protects (some (codes "products")))
      ∷ [];
  ordering = codes "-created_at" ∷ [];
  indexes = (codes "category" ∷ codes "is_active" ∷ []) ∷ [];
  checks = [];
}

abbrev pub created_stock_item : Table
created_stock_item = record {
  fields =
      record (plain (codes "created_at") date_time_field) {
        default_value = added;
        has_index = true;
      }
      ∷ record (plain (codes "updated_at") date_time_field) { default_value = saved }
      ∷ record (plain (codes "id") uuid_field) {
        default_value = made;
        is_key = true;
        is_editable = false;
      }
      ∷ record (plain (codes "quantity") positive_integer_field) { default_value = count 0 }
      ∷ record (plain (codes "reserved_quantity") positive_integer_field) {
        default_value = count 0;
      }
      ∷ record (plain (codes "reorder_threshold") positive_integer_field) {
        default_value = count 10;
      }
      ∷ plain (codes "product")
          (one_to_one_field product_model cascades (some (codes "stock_item")))
      ∷ [];
  ordering = [];
  indexes = (codes "product" ∷ []) ∷ [];
  checks = [];
}

abbrev pub created_order : Table
created_order = record {
  fields =
      record (plain (codes "created_at") date_time_field) {
        default_value = added;
        has_index = true;
      }
      ∷ record (plain (codes "updated_at") date_time_field) { default_value = saved }
      ∷ record (plain (codes "id") uuid_field) {
        default_value = made;
        is_key = true;
        is_editable = false;
      }
      ∷ record (plain (codes "status") (char_field 20)) {
        default_value = words (codes "pending");
        choices =
            codes "pending"
            ∷ codes "paid"
            ∷ codes "shipped"
            ∷ codes "delivered"
            ∷ codes "cancelled"
            ∷ [];
      }
      ∷ record (plain (codes "total_amount") (decimal_field 12 2)) { default_value = count 0 }
      ∷ [];
  ordering = codes "-created_at" ∷ [];
  indexes = [];
  checks = [];
}

abbrev pub created_order_item : Table
created_order_item = record {
  fields =
      record (plain (codes "created_at") date_time_field) {
        default_value = added;
        has_index = true;
      }
      ∷ record (plain (codes "updated_at") date_time_field) { default_value = saved }
      ∷ record (plain (codes "id") uuid_field) {
        default_value = made;
        is_key = true;
        is_editable = false;
      }
      ∷ plain (codes "quantity") positive_integer_field
      ∷ plain (codes "unit_price") (decimal_field 10 2)
      ∷ [];
  ordering = [];
  indexes = [];
  checks = [];
}

abbrev pub order_relations : List Operation
order_relations =
    add_field order_model
      (plain (codes "customer") (foreign_key user_model protects (some (codes "orders"))))
    ∷ add_field order_item_model
        (plain (codes "order") (foreign_key order_model cascades (some (codes "items"))))
    ∷ add_field order_item_model (plain (codes "product") (foreign_key product_model protects none))
    ∷ add_index order_model (codes "customer" ∷ codes "status" ∷ [])
    ∷ add_constraint order_item_model
        (record { name = codes "orderitem_qty_gt_0"; field = codes "quantity"; above = 0 })
    ∷ []

abbrev pub operations : Name → List Operation
operations users_0001 = create_model user_model created_user ∷ []
operations catalog_0001 =
    create_model category_model created_category ∷ create_model product_model created_product ∷ []
operations inventory_0001 = create_model stock_item_model created_stock_item ∷ []
operations orders_0001 =
    create_model order_model created_order ∷ create_model order_item_model created_order_item ∷ []
operations orders_0002 = order_relations

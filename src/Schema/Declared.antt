-- ===== src/Schema/Declared.antt =====
-- The classes of apps/common/models.py and of the models.py of users, catalog, inventory and
-- orders, with the bounds that Django gives a field whose class names none: an `EmailField` has 254
-- letters. Where the related fields stand among the others is the order of the class.
use orbit_commerce_platform.Schema.{
  Field, plain, Model, Table, uuid_field, char_field, email_field, date_time_field,
  positive_integer_field, one_to_one_field, user_model, foreign_key, made, decimal_field, count,
  text_field, slug_field, product_model, added, words, category_model, order_model, protects, saved,
  boolean_field, cascades, stock_item_model, order_item_model, flag,
}
use orbit_commerce_platform.Prelude.{ℕ, Text, List, ◌∷◌, [], ◌++◌, some, none, true, codes, false}

-- `TimeStampedModel`
abbrev pub time_stamped_fields : List Field
time_stamped_fields =
    record (plain (codes "created_at") date_time_field) { default_value = added; has_index = true }
    ∷ record (plain (codes "updated_at") date_time_field) { default_value = saved }
    ∷ []

-- `UUIDPrimaryKeyModel`
abbrev pub uuid_primary_key_fields : List Field
uuid_primary_key_fields =
    record (plain (codes "id") uuid_field) {
      default_value = made;
      is_key = true;
      is_editable = false;
    }
    ∷ []

-- `BaseModel`
abbrev pub base_model_fields : List Field
base_model_fields = time_stamped_fields ++ uuid_primary_key_fields

abbrev pub newest_first : List Text
newest_first = codes "-created_at" ∷ []

abbrev pub category_fields : List Field
category_fields =
    record (plain (codes "name") (char_field 120)) { is_unique = true }
    ∷ record (plain (codes "slug") (slug_field 140)) { is_unique = true }
    ∷ []

abbrev pub declared_category : Table
declared_category = record {
  fields = base_model_fields ++ category_fields;
  ordering = codes "name" ∷ [];
  indexes = [];
  checks = [];
}

abbrev pub product_category : Field
product_category =
    plain (codes "category") (foreign_key category_model protects (some (codes "products")))

abbrev pub product_fields : List Field
product_fields =
    record (plain (codes "sku") (char_field 64)) { is_unique = true; has_index = true }
    ∷ plain (codes "name") (char_field 200)
    ∷ record (plain (codes "description") text_field) { may_be_blank = true }
    ∷ plain (codes "price") (decimal_field 10 2)
    ∷ record (plain (codes "is_active") boolean_field) { default_value = flag true }
    ∷ []

abbrev pub declared_product : Table
declared_product = record {
  fields = base_model_fields ++ product_category ∷ product_fields;
  ordering = newest_first;
  indexes = (codes "category" ∷ codes "is_active" ∷ []) ∷ [];
  checks = [];
}

abbrev pub stock_item_product : Field
stock_item_product =
    plain (codes "product") (one_to_one_field product_model cascades (some (codes "stock_item")))

abbrev pub counter : Text → ℕ → Field
counter name n = record (plain name positive_integer_field) { default_value = count n }

abbrev pub stock_item_fields : List Field
stock_item_fields =
    counter (codes "quantity") 0
    ∷ counter (codes "reserved_quantity") 0
    ∷ counter (codes "reorder_threshold") 10
    ∷ []

abbrev pub declared_stock_item : Table
declared_stock_item = record {
  fields = base_model_fields ++ stock_item_product ∷ stock_item_fields;
  ordering = [];
  indexes = (codes "product" ∷ []) ∷ [];
  checks = [];
}

abbrev pub order_customer : Field
order_customer = plain (codes "customer") (foreign_key user_model protects (some (codes "orders")))

abbrev pub order_fields : List Field
order_fields =
    record (plain (codes "status") (char_field 20)) {
      default_value = words (codes "pending");
      choices =
          codes "pending"
          ∷ codes "paid"
          ∷ codes "shipped"
          ∷ codes "delivered"
          ∷ codes "cancelled"
          ∷ [];
    }
    ∷ record (plain (codes "total_amount") (decimal_field 12 2)) { default_value = count 0 }
    ∷ []

abbrev pub declared_order : Table
declared_order = record {
  fields = base_model_fields ++ order_customer ∷ order_fields;
  ordering = newest_first;
  indexes = (codes "customer" ∷ codes "status" ∷ []) ∷ [];
  checks = [];
}

abbrev pub order_item_relations : List Field
order_item_relations =
    plain (codes "order") (foreign_key order_model cascades (some (codes "items")))
    ∷ plain (codes "product") (foreign_key product_model protects none)
    ∷ []

abbrev pub order_item_fields : List Field
order_item_fields =
    plain (codes "quantity") positive_integer_field
    ∷ plain (codes "unit_price") (decimal_field 10 2)
    ∷ []

abbrev pub declared_order_item : Table
declared_order_item = record {
  fields = base_model_fields ++ order_item_relations ++ order_item_fields;
  ordering = [];
  indexes = [];
  checks = record { name = codes "orderitem_qty_gt_0"; field = codes "quantity"; above = 0 } ∷ [];
}

abbrev pub user_fields : List Field
user_fields =
    record (plain (codes "email") (email_field 254)) { is_unique = true; has_index = true }
    ∷ record (plain (codes "first_name") (char_field 150)) { may_be_blank = true }
    ∷ record (plain (codes "last_name") (char_field 150)) { may_be_blank = true }
    ∷ record (plain (codes "role") (char_field 20)) {
      default_value = words (codes "customer");
      choices = codes "customer" ∷ codes "staff" ∷ codes "admin" ∷ [];
    }
    ∷ record (plain (codes "is_active") boolean_field) { default_value = flag true }
    ∷ record (plain (codes "is_staff") boolean_field) { default_value = flag false }
    ∷ []

-- `auth_fields` are those of Django's `AbstractBaseUser` and `PermissionsMixin`.
abbrev pub declared_user : List Field → Table
declared_user auth_fields = record {
  fields = auth_fields ++ base_model_fields ++ user_fields;
  ordering = newest_first;
  indexes = [];
  checks = [];
}

abbrev pub declared : List Field → Model → Table
declared auth_fields user_model = declared_user auth_fields
declared auth_fields category_model = declared_category
declared auth_fields product_model = declared_product
declared auth_fields stock_item_model = declared_stock_item
declared auth_fields order_model = declared_order
declared auth_fields order_item_model = declared_order_item

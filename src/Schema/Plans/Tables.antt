-- ===== src/Schema/Plans/Tables.antt =====
-- The tables after some of the migrations.
use orbit_commerce_platform.Schema.Migrations.{
  Name, created_order_item, created_order, created_user, created_category, users_0001, dependencies,
  catalog_0001, created_stock_item, created_product, operations, orders_0001, orders_0002,
  inventory_0001,
}
use orbit_commerce_platform.Schema.Plans.{Applied, is_applied, AllApplied, mark}
use orbit_commerce_platform.Schema.{
  Model, Operation, Table, plain, put_table, change, user_model, order_item_model, stock_item_model,
  model_of, foreign_key, product_model, Present, protects, same_model, order_model, cascades,
  targets, category_model,
}
use orbit_commerce_platform.Prelude.{
  ◌≡◌, ◌⊎◌, ◌∷◌, [], ◌++◌, List, Option, none, some, true, false, codes, if◌then◌else◌, arith, inl,
  ap, inr, refl,
}

-- The tables of orders and items between the operations of the second migration of orders.
abbrev pub order_with_customer : Table
order_with_customer = record created_order {
  fields =
      created_order.fields
      ++ plain (codes "customer") (foreign_key user_model protects (some (codes "orders"))) ∷ [];
}

abbrev pub order_with_relations : Table
order_with_relations = record order_with_customer {
  indexes = (codes "customer" ∷ codes "status" ∷ []) ∷ [];
}

abbrev pub order_item_with_order : Table
order_item_with_order = record created_order_item {
  fields =
      created_order_item.fields
      ++ plain (codes "order") (foreign_key order_model cascades (some (codes "items"))) ∷ [];
}

abbrev pub order_item_with_product : Table
order_item_with_product = record order_item_with_order {
  fields =
      order_item_with_order.fields
      ++ plain (codes "product") (foreign_key product_model protects none) ∷ [];
}

abbrev pub order_item_with_relations : Table
order_item_with_relations = record order_item_with_product {
  checks = record { name = codes "orderitem_qty_gt_0"; field = codes "quantity"; above = 0 } ∷ [];
}

-- The tables after some migrations.
abbrev pub tables_after : Applied → Model → Option Table
tables_after a user_model = if a.users then some created_user else none
tables_after a category_model = if a.catalog then some created_category else none
tables_after a product_model = if a.catalog then some created_product else none
tables_after a stock_item_model = if a.inventory then some created_stock_item else none
tables_after a order_model =
    if a.relations
    then some order_with_relations
    else (if a.orders then some created_order else none)
tables_after a order_item_model =
    if a.relations
    then some order_item_with_relations
    else (if a.orders then some created_order_item else none)

-- What operations make of tables, each with its targets there.
abbrev pub Runs : List Operation → (Model → Option Table) → (Model → Option Table) → Type 0
Runs [] f g = (k : Model) → f k ≡ g k
Runs (o ∷ os) f g =
    (t : Table) × (change o (f (model_of o)) ≡ some t)
    × Present (targets o) f
    × Runs os (put_table (model_of o) t f) g

-- The relations come after the orders.
abbrev pub InStep : Applied → Type 0
InStep a = (a.relations ≡ false) ⊎ (a.orders ≡ true)

pub no_relations : (a : Applied) → InStep a → a.orders ≡ false → a.relations ≡ false
no_relations a (inl no_relation) fresh = no_relation
no_relations a (inr ordered) fresh = ground (arith, ordered, fresh)

pub user_tables :
    (a : Applied)
    → (k : Model)
    → put_table user_model created_user (tables_after a) k ≡ tables_after (mark users_0001 a) k
user_tables a user_model = refl
user_tables a category_model = refl
user_tables a product_model = refl
user_tables a stock_item_model = refl
user_tables a order_model = refl
user_tables a order_item_model = refl

pub catalog_tables :
    (a : Applied)
    → (k : Model)
    → put_table product_model created_product
        (put_table category_model created_category (tables_after a))
        k
      ≡ tables_after (mark catalog_0001 a) k
catalog_tables a user_model = refl
catalog_tables a category_model = refl
catalog_tables a product_model = refl
catalog_tables a stock_item_model = refl
catalog_tables a order_model = refl
catalog_tables a order_item_model = refl

pub inventory_tables :
    (a : Applied)
    → (k : Model)
    → put_table stock_item_model created_stock_item (tables_after a) k
      ≡ tables_after (mark inventory_0001 a) k
inventory_tables a user_model = refl
inventory_tables a category_model = refl
inventory_tables a product_model = refl
inventory_tables a stock_item_model = refl
inventory_tables a order_model = refl
inventory_tables a order_item_model = refl

pub order_tables :
    (a : Applied)
    → a.relations ≡ false
    → (k : Model)
    → put_table order_item_model created_order_item
        (put_table order_model created_order (tables_after a))
        k
      ≡ tables_after (mark orders_0001 a) k
order_tables a before user_model = refl
order_tables a before category_model = refl
order_tables a before product_model = refl
order_tables a before stock_item_model = refl
order_tables a before order_model = rw before refl
order_tables a before order_item_model = rw before refl

pub relation_tables :
    (a : Applied) (k : Model)
    → put_table order_item_model order_item_with_relations
        (put_table order_model order_with_relations (
          put_table order_item_model order_item_with_product (
            put_table order_item_model order_item_with_order
              (put_table order_model order_with_customer (tables_after a)))))
        k
      ≡ tables_after (mark orders_0002 a) k
relation_tables a user_model = refl
relation_tables a category_model = refl
relation_tables a product_model = refl
relation_tables a stock_item_model = refl
relation_tables a order_model = refl
relation_tables a order_item_model = refl

pub step_Runs :
    (n : Name) (a : Applied)
    → InStep a
    → is_applied n a ≡ false
    → AllApplied (dependencies n) a
    → Runs (operations n) (tables_after a) (tables_after (mark n a))
step_Runs users_0001 a ok fresh known = (created_user, rw fresh refl, refl, user_tables a)
step_Runs catalog_0001 a ok fresh known = (
  created_category,
  rw fresh refl,
  refl,
  (created_product, rw fresh refl, ((created_category, refl), refl), catalog_tables a),
)
step_Runs inventory_0001 a ok fresh (catalog, done) = (
  created_stock_item,
  rw fresh refl,
  ((created_product, rw catalog refl), refl),
  inventory_tables a,
)
step_Runs orders_0001 a ok fresh known =
    let before = no_relations a ok fresh in
    (
      created_order,
      rw (before, fresh) refl,
      refl,
      (created_order_item, rw (before, fresh) refl, refl, order_tables a before),
    )
step_Runs orders_0002 a ok fresh (catalog, (orders, (users, done))) = (
  order_with_customer,
  rw (fresh, orders) refl,
  ((created_user, rw users refl), refl),
  (
    order_item_with_order,
    rw (fresh, orders) refl,
    ((order_with_customer, refl), refl),
    (
      order_item_with_product,
      refl,
      ((created_product, rw catalog refl), refl),
      (
        order_with_relations,
        refl,
        refl,
        (order_item_with_relations, refl, refl, relation_tables a),
      ),
    ),
  ),
)

pub put_table_same :
    (m : Model) (t : Table) (f h : Model → Option Table) (k : Model)
    → f k ≡ h k
    → put_table m t f k ≡ put_table m t h k
put_table_same m t f h k same = ap (λ x. if same_model m k then some t else x) same

pub mark-InStep :
    (n : Name) (a : Applied) → InStep a → AllApplied (dependencies n) a → InStep (mark n a)
mark-InStep users_0001 a ok known = ok
mark-InStep catalog_0001 a ok known = ok
mark-InStep inventory_0001 a ok known = ok
mark-InStep orders_0001 a ok known = inr refl
mark-InStep orders_0002 a ok (catalog, (orders, users)) = inr orders

-- The table of each model when all migrations have been applied.
abbrev pub final_table : Model → Table
final_table user_model = created_user
final_table category_model = created_category
final_table product_model = created_product
final_table stock_item_model = created_stock_item
final_table order_model = order_with_relations
final_table order_item_model = order_item_with_relations

pub all_tables :
    (a : Applied)
    → AllApplied (users_0001 ∷ catalog_0001 ∷ inventory_0001 ∷ orders_0001 ∷ orders_0002 ∷ []) a
    → (m : Model) → tables_after a m ≡ some (final_table m)
all_tables a (users, (catalog, (inventory, (orders, (relations, done))))) user_model = rw users refl
all_tables a (users, (catalog, (inventory, (orders, (relations, done))))) category_model =
    rw catalog refl
all_tables a (users, (catalog, (inventory, (orders, (relations, done))))) product_model =
    rw catalog refl
all_tables a (users, (catalog, (inventory, (orders, (relations, done))))) stock_item_model =
    rw inventory refl
all_tables a (users, (catalog, (inventory, (orders, (relations, done))))) order_model =
    rw relations refl
all_tables a (users, (catalog, (inventory, (orders, (relations, done))))) order_item_model =
    rw relations refl

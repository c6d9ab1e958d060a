-- ===== src/Platform/Memory.antt =====
-- A database in memory that meets the interface: each table is a function from keys to rows.
use orbit_commerce_platform.Orders.Models.{Order, OrderItem}
use orbit_commerce_platform.Inventory.StockItem.{StockItem}
use orbit_commerce_platform.Common.Kafka.{Broker}
use orbit_commerce_platform.Platform.Env.{Env, IsDatabase}
use orbit_commerce_platform.Catalog.Models.{Uuid, Product}
use mathlib.Core.Option
use mathlib.Core.List.Perm
use orbit_commerce_platform.Prelude.{
  ◌∷◌, ==_refl, Option, some, true, if◌then◌else◌, ◌≡◌, ◌==◌, Bool-cases, inl, ap, List, ==_iff,
  inr, refl,
}

pub record Tables : Type 0 where
  pub products : Uuid → Option Product
  pub stock_items : Uuid → Option StockItem
  pub orders : Uuid → Option Order
  pub order_items : Uuid → List OrderItem

abbrev pub update {ℓ} : {A : Type ℓ} → Uuid → A → (Uuid → A) → Uuid → A
update k a t j = if k == j then a else t j

-- A broker that is up and takes every message.
abbrev pub ready : Broker
ready = record {
  producer_enabled = true;
  connects = λ t. true;
  sends = λ t m. true;
  flushes = λ t m. true;
}

abbrev pub memory : Env
memory = record {
  Rows = Tables;
  product = λ r k. r.products k;
  stock_item = λ r k. r.stock_items k;
  order = λ r k. r.orders k;
  items = λ r k. r.order_items k;
  update_stock_item = λ k set r. record r {
    stock_items = update k (Option.map set (r.stock_items k)) r.stock_items;
  };
  insert_order = λ k o r. record r { orders = update k (some o) r.orders };
  update_order = λ k set r. record r { orders = update k (Option.map set (r.orders k)) r.orders };
  insert_item = λ k x r. record r { order_items = update k (x ∷ r.order_items k) r.order_items };
  rollback = λ before after. before;
  broker = ready;
  order_topic = "order-events";
  inventory_topic = "inventory-events";
  accepts_task = λ t task. true;
}

-- An update of one key, read at another.
update-map {ℓ} :
    {A : Type ℓ} (t : Uuid → Option A) (set : A → A) (p q : Uuid)
    → update p (Option.map set (t p)) t q ≡ (if p == q then Option.map set (t q) else t q)
update-map t set p q = elim (Bool-cases (p == q)) [
  | inl same ↦ rw same (ap (λ k. Option.map set (t k)) ((==_iff p q).0 same))
  | inr ne ↦ rw ne
]

pub memory-IsDatabase : IsDatabase memory
memory-IsDatabase = record {
  rollback_lem = λ before after. refl;
  stock_item-update = λ r p q f. update-map r.stock_items f p q;
  stock_item-insert_order = λ r i q o. refl;
  stock_item-update_order = λ r i q f. refl;
  stock_item-insert_item = λ r i q x. refl;
  order-update_stock = λ r p j f. refl;
  order-insert = λ r i j o. refl;
  order-update = λ r i j f. update-map r.orders f i j;
  order-insert_item = λ r i j x. refl;
  items-update_stock = λ r p j f. refl;
  items-insert_order = λ r i j o. refl;
  items-update_order = λ r i j f. refl;
  items-insert = λ r i x. rw (==_refl i) (Perm.refl (x ∷ r.order_items i));
  items-insert_ne = λ r i j x ne. rw ne;
  product-update_stock = λ r p j f. refl;
  product-insert_order = λ r i j o. refl;
  product-update_order = λ r i j f. refl;
  product-insert_item = λ r i j x. refl;
}

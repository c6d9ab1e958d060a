-- ===== src/Inventory/Writes.antt =====
-- What a call of inventory/services.py does to the database, by how it ended.
use orbit_commerce_platform.Platform.Post.{Post, SameRows}
use orbit_commerce_platform.Common.Kafka.{publish_event, stock_payload}
use orbit_commerce_platform.Prelude.{
  ℕ, ◌+◌, ◌-◌, ◌≤◌, String, ◌≡◌, refl, inl, inr, true, false, some, arith, ltb, ◌==◌, Bool-cases,
  Option-cases, ==_refl, ◌∙◌,
}
use orbit_commerce_platform.Catalog.Models.{Uuid, Product}
use orbit_commerce_platform.Inventory.StockItem.{
  StockItem, available_quantity, is_below_reorder_threshold,
}
use orbit_commerce_platform.Inventory.Services.{
  reserve_stock, release_stock, commit_stock, stock_fits, save_stock_item, publish_stock_event,
}
use orbit_commerce_platform.Common.Exceptions.{Result, ok, err, database_error}
use orbit_commerce_platform.Platform.Env.{Env, IsDatabase}
use orbit_commerce_platform.Platform.Exec.{World, Exec, pure, ◌>>◌, atomic}

-- From `w` to `w'` the stock row of `p` went from `old` to `new`; no other row changed, and the
-- clock stood still.
pub record StockWrite {e : Env} (p : Uuid) (old new : StockItem) (w w' : World e) : Type 0 where
  pub was : e.stock_item w.rows p ≡ some old
  pub here : e.stock_item w'.rows p ≡ some new
  pub others : (q : Uuid) → (p == q) ≡ false → e.stock_item w'.rows q ≡ e.stock_item w.rows q
  pub orders : (j : Uuid) → e.order w'.rows j ≡ e.order w.rows j
  pub items : (j : Uuid) → e.items w'.rows j ≡ e.items w.rows j
  pub products : (j : Uuid) → e.product w'.rows j ≡ e.product w.rows j
  pub clock : w'.now ≡ w.now
  pub fits : stock_fits new ≡ true

-- A call that returned has changed the row of `p`, which it had found to meet `pre`, as `change`
-- says, and returns the changed row. A call that raised has changed no row.
abbrev pub Writes :
    {e : Env}
    → (StockItem → Type 0)
    → (StockItem → StockItem)
    → Uuid
    → World e
    → Result StockItem × World e
    → Type 0
Writes pre change p w =
    Post
      (λ s' w'.
        (old : StockItem) × pre old × (s' ≡ change old) × StockWrite p old (change old) w w')
      (SameRows w)

-- A write that goes through `update_stock_item`.
update-StockWrite :
    {e : Env} (laws : IsDatabase e) (p : Uuid) (old new : StockItem) (set : StockItem → StockItem)
    (w w' : World e)
    → e.stock_item w.rows p ≡ some old
    → set old ≡ new
    → stock_fits (set old) ≡ true
    → w'.rows ≡ e.update_stock_item p set w.rows
    → w'.now ≡ w.now
    → StockWrite p old new w w'
update-StockWrite {e} laws p old new set w w' found eq room rows clock = record {
  was = found;
  here = rw (rows, laws.stock_item-update w.rows p p set, ==_refl p, found, eq);
  others = λ q ne. rw (rows, laws.stock_item-update w.rows p q set, ne);
  orders = λ j. rw (rows, laws.order-update_stock w.rows p j set);
  items = λ j. rw (rows, laws.items-update_stock w.rows p j set);
  products = λ j. rw (rows, laws.product-update_stock w.rows p j set);
  clock = clock;
  fits = rw (← eq) room;
}

-- The end that the three calls share: save the columns, publish, return the instance.
abbrev pub save_and_publish :
    {e : Env} → String → Uuid → ℕ → (StockItem → StockItem) → StockItem → Exec e StockItem
save_and_publish event_type p q set s' = do
  save_stock_item p set
  publish_stock_event event_type p s' q
  pure s'

save_and_publish-Writes :
    {e : Env} (laws : IsDatabase e) (event_type : String) (p : Uuid) (q : ℕ)
    (pre : StockItem → Type 0) (change set : StockItem → StockItem) (old : StockItem) (w : World e)
    → e.stock_item w.rows p ≡ some old
    → pre old
    → set old ≡ change old
    → Writes pre change p w (atomic (save_and_publish event_type p q set (change old)) w)
unfolding save_stock_item publish_stock_event
save_and_publish-Writes {e} laws event_type p q pre change set old w found holds eq =
    elim (Bool-cases (stock_fits (set old))) [
      | inl room ↦ elim (Option-cases (e.product (e.update_stock_item p set w.rows) p)) [
        | inl gone ↦ rw (Writes, Post, found, room, gone) (laws.rollback_lem _ _, refl)
        | inr (product, there) ↦
            rw (Writes, Post, found, room, there)
              (
                old,
                holds,
                refl,
                update-StockWrite laws p old (change old) set w _ found eq room refl refl,
              )
      ]
      | inr over ↦ rw (Writes, Post, found, over) (laws.rollback_lem _ _, refl)
    ]

-- With the row and its product there and the new counts in range the call returns, with the row
-- changed and the event handed to `publish_event`.
pub record Saves {e : Env} (event_type : String) (p : Uuid) (q : ℕ) (old new : StockItem)
    (w : World e) (out : Result StockItem × World e) : Type 0 where
  pub returned : out.0 ≡ ok new
  pub write : StockWrite p old new w out.1
  pub published :
      (sku : String) × (out.1.bus
        ≡ publish_event e.broker w.now e.inventory_topic event_type
            (stock_payload p sku q (available_quantity new) (is_below_reorder_threshold new))
            (some p)
            w.bus)

pub save_and_publish-Saves :
    {e : Env} (laws : IsDatabase e) (event_type : String) (p : Uuid) (q : ℕ)
    (set : StockItem → StockItem) (old new : StockItem) (product : Product) (w : World e)
    → e.stock_item w.rows p ≡ some old
    → e.product w.rows p ≡ some product
    → set old ≡ new
    → stock_fits new ≡ true
    → Saves event_type p q old new w (atomic (save_and_publish event_type p q set new) w)
unfolding save_stock_item publish_stock_event
save_and_publish-Saves {e} laws event_type p q set old new product w found there eq fits =
    let room : stock_fits (set old) ≡ true = rw eq fits in
    let still : e.product (e.update_stock_item p set w.rows) p ≡ some product =
      laws.product-update_stock w.rows p p set ∙ there in
    record {
      returned = rw (found, room, still);
      write =
          rw (found, room, still)
            (update-StockWrite laws p old new set w _ found eq room refl refl);
      published = (product.sku, rw (found, room, still));
    }

-- Counts out of range are refused by the database, and no row changes.
pub save_and_publish-full :
    {e : Env} (laws : IsDatabase e) (event_type : String) (p : Uuid) (q : ℕ)
    (set : StockItem → StockItem) (old new : StockItem) (w : World e)
    → e.stock_item w.rows p ≡ some old
    → stock_fits (set old) ≡ false
    → ((atomic (save_and_publish event_type p q set new) w).0 ≡ err database_error)
      × ((atomic (save_and_publish event_type p q set new) w).1.rows ≡ w.rows)
unfolding save_stock_item
save_and_publish-full laws event_type p q set old new w found over =
    (rw (found, over) refl, rw (found, over) (laws.rollback_lem _ _))

abbrev pub reserved : ℕ → ℕ → StockItem → StockItem
reserved now q s = record s { reserved_quantity = s.reserved_quantity + q; updated_at = now }

abbrev pub released : ℕ → ℕ → StockItem → StockItem
released now q s = record s { reserved_quantity = s.reserved_quantity - q; updated_at = now }

abbrev pub committed : ℕ → ℕ → StockItem → StockItem
committed now q s = record s {
  quantity = s.quantity - q;
  reserved_quantity = s.reserved_quantity - q;
  updated_at = now;
}

-- The columns that the two UPDATE statements set.
abbrev pub set_reserved : ℕ → ℕ → StockItem → StockItem
set_reserved now n row = record row { reserved_quantity = n; updated_at = now }

abbrev pub set_counts : ℕ → ℕ → ℕ → StockItem → StockItem
set_counts now m n row = record row { quantity = m; reserved_quantity = n; updated_at = now }

abbrev pub AnyStock : StockItem → Type 0
AnyStock s = Unit

pub reserve_stock-Writes :
    {e : Env} (laws : IsDatabase e) (p : Uuid) (q : ℕ) (w : World e)
    → Writes (λ s. q ≤ available_quantity s) (reserved w.now q) p w (reserve_stock p q w)
unfolding reserve_stock
reserve_stock-Writes {e} laws p q w = elim (Option-cases (e.stock_item w.rows p)) [
  | inl missing ↦ rw (Writes, Post, missing) (laws.rollback_lem _ _, refl)
  | inr (s, found) ↦ elim (Bool-cases (ltb (available_quantity s) q)) [
    | inl short ↦ elim (Option-cases (e.product w.rows p)) [
      | inl gone ↦ rw (Writes, Post, found, short, gone) (laws.rollback_lem _ _, refl)
      | inr (product, there) ↦ rw (Writes, Post, found, short, there) (laws.rollback_lem _ _, refl)
    ]
    | inr enough ↦
        rw (Writes, Post, found, enough)
          (save_and_publish-Writes laws "stock.reserved" p q (λ x. q ≤ available_quantity x)
            (reserved w.now q) (set_reserved w.now (s.reserved_quantity + q)) s w found
            (ground arith) refl)
  ]
]

pub release_stock-Writes :
    {e : Env} (laws : IsDatabase e) (p : Uuid) (q : ℕ) (w : World e)
    → Writes AnyStock (released w.now q) p w (release_stock p q w)
unfolding release_stock
release_stock-Writes {e} laws p q w = elim (Option-cases (e.stock_item w.rows p)) [
  | inl missing ↦ rw (Writes, Post, missing) (laws.rollback_lem _ _, refl)
  | inr (s, found) ↦
      rw (Writes, Post, found)
        (save_and_publish-Writes laws "stock.released" p q AnyStock (released w.now q)
          (set_reserved w.now (s.reserved_quantity - q)) s w found tt refl)
]

pub commit_stock-Writes :
    {e : Env} (laws : IsDatabase e) (p : Uuid) (q : ℕ) (w : World e)
    → Writes AnyStock (committed w.now q) p w (commit_stock p q w)
unfolding commit_stock
commit_stock-Writes {e} laws p q w = elim (Option-cases (e.stock_item w.rows p)) [
  | inl missing ↦ rw (Writes, Post, missing) (laws.rollback_lem _ _, refl)
  | inr (s, found) ↦
      rw (Writes, Post, found)
        (save_and_publish-Writes laws "stock.committed" p q AnyStock (committed w.now q)
          (set_counts w.now (s.quantity - q) (s.reserved_quantity - q)) s w found tt refl)
]

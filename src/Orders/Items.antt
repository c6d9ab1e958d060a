-- ===== src/Orders/Items.antt =====
-- The loops of `cancel_order` and `mark_order_paid` over the items of an order.
use orbit_commerce_platform.Inventory.Services.{release_stock, commit_stock}
use orbit_commerce_platform.Orders.Counters.{
  reserved_at, units, quantity_at, reserved-committed, reserved-released, quantity-released,
  quantity-committed,
}
use orbit_commerce_platform.Platform.Post.{Post, Clock, >>=-Post, SameRows, Post-map}
use orbit_commerce_platform.Inventory.Writes.{
  StockWrite, AnyStock, released, committed, commit_stock-Writes, release_stock-Writes,
}
use orbit_commerce_platform.Orders.Models.{OrderItem}
use orbit_commerce_platform.Inventory.StockItem.{StockItem}
use orbit_commerce_platform.Orders.Services.{commit_items, release_items}
use orbit_commerce_platform.Catalog.Models.{Uuid}
use orbit_commerce_platform.Platform.Exec.{World}
use orbit_commerce_platform.Platform.Env.{Env, IsDatabase}
use orbit_commerce_platform.Prelude.{List, ◌≡◌, ◌∙◌, ◌-◌, arith, ◌∷◌, [], refl}

-- What both loops leave alone.
pub record Untouched {e : Env} (w w' : World e) : Type 0 where
  pub orders : (j : Uuid) → e.order w'.rows j ≡ e.order w.rows j
  pub items : (j : Uuid) → e.items w'.rows j ≡ e.items w.rows j
  pub clock : w'.now ≡ w.now

-- `release_stock` has run over `items`.
pub record Released {e : Env} (items : List OrderItem) (w : World e) (t : Unit {0}) (w' : World e)
    : Type 0 where
  pub reserved : (p : Uuid) → reserved_at w' p ≡ reserved_at w p - units p items
  pub quantity : (p : Uuid) → quantity_at w' p ≡ quantity_at w p
  pub rest : Untouched w w'

-- `commit_stock` has run over `items`.
pub record Committed {e : Env} (items : List OrderItem) (w : World e) (t : Unit {0}) (w' : World e)
    : Type 0 where
  pub reserved : (p : Uuid) → reserved_at w' p ≡ reserved_at w p - units p items
  pub quantity : (p : Uuid) → quantity_at w' p ≡ quantity_at w p - units p items
  pub rest : Untouched w w'

Untouched-step :
    {e : Env} {p : Uuid} {old new : StockItem} {w w1 w2 : World e}
    → StockWrite p old new w w1
    → Untouched w1 w2
    → Untouched w w2
Untouched-step write u = record {
  orders = λ j. u.orders j ∙ write.orders j;
  items = λ j. u.items j ∙ write.items j;
  clock = u.clock ∙ write.clock;
}

module _ {e : Env} (laws : IsDatabase e) where
  pub release_items-Released :
      (items : List OrderItem) (w : World e)
      → Post (Released items w) (Clock w) (release_items items w)
  unfolding release_items
  release_items-Released [] w = record {
    reserved = λ p. omega arith;
    quantity = λ p. refl;
    rest = record { orders = λ j. refl; items = λ j. refl; clock = refl };
  }
  release_items-Released (item ∷ rest) w =
      >>=-Post
        (λ s' w1.
          (old : StockItem) × AnyStock old
          × (s' ≡ released w.now item.quantity old)
          × StockWrite item.product old (released w.now item.quantity old) w w1)
        (SameRows w) (Released (item ∷ rest) w) (Clock w) (λ _. release_items rest)
        (release_stock item.product item.quantity) w
        (λ s' w1 h.
          Post-map (Released rest w1) (Released (item ∷ rest) w) (Clock w1) (Clock w)
            (λ t w2 k. record {
              reserved =
                  λ p. omega (arith, k.reserved p, reserved-released w.now item.quantity h.3 p);
              quantity = λ p. k.quantity p ∙ quantity-released w.now item.quantity h.3 p;
              rest = Untouched-step h.3 k.rest;
            })
            (λ x w2 k. k ∙ h.3.clock) (release_items rest w1) (release_items-Released rest w1))
        (λ x w1 h. h.1) (release_stock-Writes laws item.product item.quantity w)

  pub commit_items-Committed :
      (items : List OrderItem) (w : World e)
      → Post (Committed items w) (Clock w) (commit_items items w)
  unfolding commit_items
  commit_items-Committed [] w = record {
    reserved = λ p. omega arith;
    quantity = λ p. omega arith;
    rest = record { orders = λ j. refl; items = λ j. refl; clock = refl };
  }
  commit_items-Committed (item ∷ rest) w =
      >>=-Post
        (λ s' w1.
          (old : StockItem) × AnyStock old
          × (s' ≡ committed w.now item.quantity old)
          × StockWrite item.product old (committed w.now item.quantity old) w w1)
        (SameRows w) (Committed (item ∷ rest) w) (Clock w) (λ _. commit_items rest)
        (commit_stock item.product item.quantity) w
        (λ s' w1 h.
          Post-map (Committed rest w1) (Committed (item ∷ rest) w) (Clock w1) (Clock w)
            (λ t w2 k. record {
              reserved =
                  λ p. omega (arith, k.reserved p, reserved-committed w.now item.quantity h.3 p);
              quantity =
                  λ p. omega (arith, k.quantity p, quantity-committed w.now item.quantity h.3 p);
              rest = Untouched-step h.3 k.rest;
            })
            (λ x w2 k. k ∙ h.3.clock) (commit_items rest w1) (commit_items-Committed rest w1))
        (λ x w1 h. h.1) (commit_stock-Writes laws item.product item.quantity w)

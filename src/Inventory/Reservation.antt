-- ===== src/Inventory/Reservation.antt =====
-- Each operation of inventory/services.py on every branch, and what the operations undo.
use orbit_commerce_platform.Inventory.Writes.{
  Saves, reserved, released, committed, save_and_publish-Saves, set_reserved, set_counts,
  StockWrite,
}
use orbit_commerce_platform.Common.Exceptions.{err, insufficient_stock}
use orbit_commerce_platform.Inventory.Services.{
  reserve_stock, commit_stock, release_stock, stock_fits,
}
use orbit_commerce_platform.Inventory.Invariant.{
  IsConsistent, IsConsistent-fits, reserved-IsConsistent, committed-IsConsistent,
  released-IsConsistent,
}
use orbit_commerce_platform.Inventory.StockItem.{StockItem, available_quantity}
use orbit_commerce_platform.Platform.Exec.{World}
use orbit_commerce_platform.Catalog.Models.{Uuid, Product}
use orbit_commerce_platform.Platform.Env.{Env, IsDatabase}
use orbit_commerce_platform.Prelude.{
  ℕ, ◌≡◌, some, ◌<◌, ◌⊎◌, ◌≤◌, Bool-cases, ltb, inl, arith, inr, ◌+◌, ◌-◌, false, refl, ◌∙◌, ap,
  sym,
}

-- Two writes of one row, one after the other.
StockWrite-trans :
    {e : Env} {p : Uuid} {a b c d : StockItem} {w w' w'' : World e}
    → c ≡ d
    → StockWrite p a b w w'
    → StockWrite p b c w' w''
    → StockWrite p a d w w''
StockWrite-trans eq f g = record {
  was = f.was;
  here = g.here ∙ ap some eq;
  others = λ q ne. g.others q ne ∙ f.others q ne;
  orders = λ j. g.orders j ∙ f.orders j;
  items = λ j. g.items j ∙ f.items j;
  products = λ j. g.products j ∙ f.products j;
  clock = g.clock ∙ f.clock;
  fits = ap stock_fits (sym eq) ∙ g.fits;
}

released-reserved :
    (now later q : ℕ) (s : StockItem)
    → later ≡ now
    → released later q (reserved now q s) ≡ record s { updated_at = now }
released-reserved now later q s h = ground arith

committed-reserved :
    (now later q : ℕ) (s : StockItem)
    → later ≡ now
    → committed later q (reserved now q s)
      ≡ record s { quantity = s.quantity - q; updated_at = now }
committed-reserved now later q s h = ground arith

module _ {e : Env} (laws : IsDatabase e) (p : Uuid) (q : ℕ) (w : World e) {s : StockItem}
    {product : Product} (found : e.stock_item w.rows p ≡ some s)
    (there : e.product w.rows p ≡ some product) (consistent : IsConsistent s) where
  pub reserve_stock-Saves :
      q ≤ available_quantity s
      → Saves "stock.reserved" p q s (reserved w.now q s) w (reserve_stock p q w)
  unfolding reserve_stock
  reserve_stock-Saves enough =
      let test : ltb (available_quantity s) q ≡ false = ground arith in
      rw (found, test)
        (save_and_publish-Saves laws "stock.reserved" p q
          (set_reserved w.now (s.reserved_quantity + q)) s (reserved w.now q s) product w found
          there refl (IsConsistent-fits _ (reserved-IsConsistent w.now q s enough consistent)))

  -- What `reserve_stock` does to a consistent row whose product is there. If less than `q` is
  -- available it raises `InsufficientStockError`, with the number available and the product's
  -- name, and leaves rows, messages and tasks as they were. Otherwise it returns the row with `q`
  -- more reserved, writes that row and no other, and publishes "stock.reserved" with the counters
  -- as they are after the write.
  pub reserve_stock_exact :
      ((available_quantity s < q)
        × (reserve_stock p q w ≡ (err (insufficient_stock (available_quantity s) product.name), w)))
      ⊎ ((q ≤ available_quantity s)
          × Saves "stock.reserved" p q s (reserved w.now q s) w (reserve_stock p q w))
  unfolding reserve_stock
  reserve_stock_exact = elim (Bool-cases (ltb (available_quantity s) q)) [
    | inl short ↦ inl (ground arith, rw (found, short, there, laws.rollback_lem))
    | inr enough ↦ inr (ground arith, reserve_stock-Saves (ground arith))
  ]

  -- `release_stock` of a consistent row whose product is there always returns: the reservation
  -- goes down by `q` and stops at 0, that row alone is written, and "stock.released" is published.
  pub release_stock_exact :
      Saves "stock.released" p q s (released w.now q s) w (release_stock p q w)
  unfolding release_stock
  release_stock_exact = rw found (
      save_and_publish-Saves laws "stock.released" p q
        (set_reserved w.now (s.reserved_quantity - q)) s (released w.now q s) product w found there
        refl (IsConsistent-fits _ (released-IsConsistent w.now q s consistent)))

  -- `commit_stock` of a consistent row whose product is there always returns: both counters go
  -- down by `q` and stop at 0, that row alone is written, and "stock.committed" is published.
  pub commit_stock_exact :
      Saves "stock.committed" p q s (committed w.now q s) w (commit_stock p q w)
  unfolding commit_stock
  commit_stock_exact = rw found (
      save_and_publish-Saves laws "stock.committed" p q
        (set_counts w.now (s.quantity - q) (s.reserved_quantity - q)) s (committed w.now q s)
        product w found there refl
        (IsConsistent-fits _ (committed-IsConsistent w.now q s consistent)))

module _ {e : Env} (laws : IsDatabase e) (p : Uuid) (q : ℕ) (w : World e) {s : StockItem}
    {product : Product} (found : e.stock_item w.rows p ≡ some s)
    (there : e.product w.rows p ≡ some product) (consistent : IsConsistent s)
    (enough : q ≤ available_quantity s) where
  -- Releasing what was just reserved gives the row back with both counters as they were; only its
  -- `updated_at` is new. No other row changes.
  pub release-reserve :
      StockWrite p s
        (record s { updated_at = w.now })
        w
        (release_stock p q (reserve_stock p q w).1).1
  release-reserve =
      let first = reserve_stock-Saves laws p q w found there consistent enough in
      let second =
        release_stock_exact laws p q (reserve_stock p q w).1 first.write.here
          (first.write.products p ∙ there) (reserved-IsConsistent w.now q s enough consistent) in
      StockWrite-trans (released-reserved w.now _ q s first.write.clock) first.write second.write

  -- Committing what was just reserved takes `q` units off the stock on hand, with the same
  -- number reserved as before both calls. No other row changes.
  pub commit-reserve :
      StockWrite p s
        (record s { quantity = s.quantity - q; updated_at = w.now })
        w
        (commit_stock p q (reserve_stock p q w).1).1
  commit-reserve =
      let first = reserve_stock-Saves laws p q w found there consistent enough in
      let second =
        commit_stock_exact laws p q (reserve_stock p q w).1 first.write.here
          (first.write.products p ∙ there) (reserved-IsConsistent w.now q s enough consistent) in
      StockWrite-trans (committed-reserved w.now _ q s first.write.clock) first.write second.write

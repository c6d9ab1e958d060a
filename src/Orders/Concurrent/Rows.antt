-- ===== src/Orders/Concurrent/Rows.antt =====
-- The step of one row against `reserve_stock` of inventory/services.py as it is modelled in
-- Inventory/Services.
use orbit_commerce_platform.Common.Exceptions.{Error, err, insufficient_stock, database_error}
use orbit_commerce_platform.Inventory.Writes.{
  Saves, reserved, save_and_publish-Saves, set_reserved, save_and_publish-full,
}
use orbit_commerce_platform.Inventory.StockItem.{StockItem, available_quantity}
use orbit_commerce_platform.Platform.Exec.{World}
use orbit_commerce_platform.Catalog.Models.{Uuid, Product}
use orbit_commerce_platform.Orders.Concurrent.{reserve_row}
use orbit_commerce_platform.Platform.Env.{Env, IsDatabase}
use orbit_commerce_platform.Inventory.Services.{reserve_stock, stock_fits}
use orbit_commerce_platform.Prelude.{◌≡◌, ◌⊎◌, ℕ, some, none, Bool-cases, ltb, inl, inr, ◌+◌, refl}

-- Where the row and its product are there, a call of `reserve_stock` does to the row what the step
-- of a request does to its copy: it returns the row that the step makes and writes it, with the
-- event published, or both refuse, and the call has raised and changed no row.
pub reserve_stock-reserve_row :
    {e : Env} (laws : IsDatabase e) (p : Uuid) (q : ℕ) (w : World e) (s : StockItem)
    (product : Product)
    → e.stock_item w.rows p ≡ some s
    → e.product w.rows p ≡ some product
    → ((new : StockItem) × (reserve_row w.now q s ≡ some new)
        × Saves "stock.reserved" p q s new w (reserve_stock p q w))
      ⊎ ((reserve_row w.now q s ≡ none)
          × (x : Error) × ((reserve_stock p q w).0 ≡ err x)
          × ((reserve_stock p q w).1.rows ≡ w.rows))
unfolding reserve_row reserve_stock
reserve_stock-reserve_row laws p q w s product found there =
    elim (Bool-cases (ltb (available_quantity s) q)) [
      | inl short ↦ inr (
        rw short refl,
        insufficient_stock (available_quantity s) product.name,
        rw (found, short, there) refl,
        rw (found, short, there) (laws.rollback_lem _ _),
      )
      | inr enough ↦ elim (Bool-cases (stock_fits (reserved w.now q s))) [
        | inl room ↦ inl (
          reserved w.now q s,
          rw (enough, room) refl,
          rw (found, enough)
              (save_and_publish-Saves laws "stock.reserved" p q
                (set_reserved w.now (s.reserved_quantity + q)) s (reserved w.now q s) product w
                found there refl room),
        )
        | inr over ↦
            let full =
              save_and_publish-full laws "stock.reserved" p q
                (set_reserved w.now (s.reserved_quantity + q)) s (reserved w.now q s) w found
                over in
            inr (
              rw (enough, over) refl,
              database_error,
              rw (found, enough) (full.0),
              rw (found, enough) (full.1),
            )
      ]
    ]

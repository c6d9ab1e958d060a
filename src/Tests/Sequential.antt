-- ===== src/Tests/Sequential.antt =====
-- The committed placements of Tests/Concurrent, made one after the other in the shop.
use orbit_commerce_platform.Inventory.StockItem.{StockItem}
use orbit_commerce_platform.Orders.Concurrent.Sequential.{
  place_each, SameCounts, commits_as_place_lines,
}
use orbit_commerce_platform.Orders.Services.{place_lines, active_product}
use orbit_commerce_platform.Tests.Data.{mixed_lines, shop, mug, poster, poster_stock, mug_stock}
use orbit_commerce_platform.Orders.Concurrent.Lines.{IsReady, Decides, place_lines-Decides}
use orbit_commerce_platform.Catalog.Models.{Uuid}
use orbit_commerce_platform.Platform.Exec.{World}
use orbit_commerce_platform.Platform.Memory.{memory-IsDatabase, memory}
use orbit_commerce_platform.Tests.Concurrent.{one_committed, plan, stock, mugs, one_poster}
use orbit_commerce_platform.Prelude.{
  ◌≡◌, ◌==◌, ℕ, All, some, refl, inl, inr, arith, Bool-cases, pos, ◌+◌, Option, none,
}

mugs-IsReady : IsReady shop mugs
unfolding active_product
mugs-IsReady = ((mug, refl), (mug_stock, refl), omega arith)

one_poster-IsReady : IsReady shop one_poster
unfolding active_product
one_poster-IsReady = ((poster, refl), (poster_stock, refl), omega arith)

plan-IsReady : (i : ℕ) → All (IsReady shop) (plan i)
plan-IsReady i = elim (Bool-cases (i == 0)) [
  | inl first ↦ rw first (mugs-IsReady, (one_poster-IsReady, tt))
  | inr other ↦ rw other (one_poster-IsReady, tt)
]

same_counts : (o : Option StockItem) → SameCounts o o
same_counts none = tt
same_counts (some x) = (refl, refl)

place_lines-Decides_example : Decides mixed_lines shop (place_lines 77 mixed_lines (pos 0) shop)
place_lines-Decides_example =
    place_lines-Decides memory-IsDatabase 77 mixed_lines (pos 0) shop
      (mugs-IsReady, (one_poster-IsReady, tt))

abbrev order_key : ℕ → Uuid
order_key i = 100 + i

commits_as_place_lines_example :
    (w' : World memory) × (place_each order_key plan one_committed.0.history shop ≡ some w')
    × ((p : Uuid) → SameCounts (w'.rows.stock_items p) (one_committed.0.rows p))
commits_as_place_lines_example =
    commits_as_place_lines memory-IsDatabase order_key plan stock 2 one_committed.0 shop
      one_committed.1 (λ p. same_counts (stock p)) plan-IsReady

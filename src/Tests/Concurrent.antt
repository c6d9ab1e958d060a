-- ===== src/Tests/Concurrent.antt =====
-- Two requests at the same time: one orders two mugs and the poster, the other the only poster.
use orbit_commerce_platform.Orders.Concurrent.Serial.{commits_serialize}
use orbit_commerce_platform.Orders.Concurrent.Progress.{no_deadlock}
use orbit_commerce_platform.Orders.Concurrent.Oversell.{ordered, no_oversell}
use orbit_commerce_platform.Orders.Concurrent.Isolation.{then_row, all_lines, after}
use orbit_commerce_platform.Orders.Concurrent.Ordered.{Ascending}
use orbit_commerce_platform.Platform.Memory.{update}
use orbit_commerce_platform.Tests.Data.{mug_stock, poster_stock, no_row}
use orbit_commerce_platform.Inventory.Services.{stock_fits}
use orbit_commerce_platform.Inventory.Writes.{reserved}
use orbit_commerce_platform.Orders.Concurrent.{
  reserve_row, commit, reserve, Step, refuse, Reserved, System, no_copies, Reach, later, start,
  step, lock,
}
use orbit_commerce_platform.Orders.Services.{Line}
use orbit_commerce_platform.Inventory.StockItem.{StockItem, available_quantity}
use orbit_commerce_platform.Catalog.Models.{Uuid}
use orbit_commerce_platform.Prelude.{
  ◌≡◌, ◌≤◌, ◌+◌, ◌∷◌, [], some, arith, refl, List, ℕ, Option, if◌then◌else◌, ◌==◌, Bool-cases, All,
  inl, inr, map,
}

abbrev pub stock : Uuid → Option StockItem
stock = update 1 (some mug_stock) (update 2 (some poster_stock) no_row)

abbrev pub mugs : Line
mugs = record { product_id = 1; quantity = 2 }

abbrev pub one_poster : Line
one_poster = record { product_id = 2; quantity = 1 }

abbrev pub plan : ℕ → List Line
plan i = if i == 0 then mugs ∷ one_poster ∷ [] else one_poster ∷ []

abbrev mugs_held : StockItem
mugs_held = reserved 7 2 mug_stock

abbrev poster_held : StockItem
poster_held = reserved 8 1 poster_stock

abbrev mine_0 : Uuid → Option StockItem
mine_0 = update 1 (some mugs_held) (update 1 (some mug_stock) no_copies)

abbrev mine_1 : Uuid → Option StockItem
mine_1 = update 2 (some poster_held) (update 2 (some poster_stock) no_copies)

abbrev mugs_done : List Reserved
mugs_done = record { now = 7; line = mugs } ∷ []

abbrev poster_done : List Reserved
poster_done = record { now = 8; line = one_poster } ∷ []

-- Both have reserved their first line.
pub both_begun : (s : System) × Reach 2 stock plan s
unfolding reserve_row available_quantity stock_fits
both_begun =
    let r1 : Reach 2 stock plan _ = later start (
      step
        (lock 0 [] mugs (one_poster ∷ []) no_copies mug_stock (omega arith) refl refl refl refl)) in
    let r2 : Reach 2 stock plan _ =
      later r1
        (step (lock 1 [] one_poster [] no_copies poster_stock (omega arith) refl refl refl refl)) in
    let r3 : Reach 2 stock plan _ = later r2 (
      step (
        reserve 0 [] mugs (one_poster ∷ []) (update 1 (some mug_stock) no_copies) 7 mug_stock
          mugs_held (omega arith) refl refl refl)) in
    let r4 : Reach 2 stock plan _ = later r3 (
      step (
        reserve 1 [] one_poster [] (update 2 (some poster_stock) no_copies) 8 poster_stock
          poster_held (omega arith) refl refl refl)) in
    (_, r4)

-- The second request commits. The first one then finds no poster left, and is rolled back.
unfoldable pub one_committed : (s : System) × Reach 2 stock plan s
unfolding both_begun reserve_row available_quantity stock_fits
one_committed =
    let r5 : Reach 2 stock plan _ =
      later both_begun.1 (step (commit 1 poster_done mine_1 (omega arith) refl)) in
    let r6 : Reach 2 stock plan _ = later r5 (
      step (lock 0 mugs_done one_poster [] mine_0 poster_held (omega arith) refl refl refl refl)) in
    let r7 : Reach 2 stock plan _ = later r6 (
      step (
        refuse 0 mugs_done one_poster [] (update 2 (some poster_held) mine_0) 9 poster_held
          (omega arith) refl refl refl)) in
    (_, r7)

commits_serialize_example :
    ((p : Uuid)
      → one_committed.0.rows p ≡ then_row (stock p) (after (all_lines one_committed.0.history) p))
    × All (λ c. map (λ d. d.line) c.lines ≡ plan c.request) one_committed.0.history
commits_serialize_example = commits_serialize 2 stock plan one_committed.0 one_committed.1

no_oversell_example :
    (now : StockItem) × (one_committed.0.rows 2 ≡ some now)
    × (now.quantity ≡ 1)
    × (now.reserved_quantity ≡ 0 + ordered 2 (all_lines one_committed.0.history))
    × (now.reserved_quantity ≤ now.quantity)
no_oversell_example =
    no_oversell 2 stock plan one_committed.0 2 poster_stock one_committed.1 refl (omega arith)

sold_once : one_committed.0.rows 2 ≡ some poster_held
unfolding one_committed both_begun
sold_once = refl

plan-Ascending : (j : ℕ) → Ascending (plan j)
plan-Ascending j = elim (Bool-cases (j == 0)) [
  | inl first ↦ rw first ((omega arith, tt), (tt, tt))
  | inr other ↦ rw other (tt, tt)
]

no_deadlock_example : (t : System) × Step 2 both_begun.0 t
unfolding both_begun
no_deadlock_example =
    no_deadlock 2 stock plan both_begun.0 0 mugs_done (one_poster ∷ []) mine_0 plan-Ascending
      both_begun.1 (omega arith) refl

-- ===== src/Orders/Concurrent/Progress.antt =====
-- Requests that place orders at the same time do not block each other for good, if each orders its
-- products in ascending order.
use orbit_commerce_platform.Orders.Concurrent.Ordered.{
  Ascending, IsOrdered, Holds, Reach-IsOrdered, InOrder,
}
use orbit_commerce_platform.Orders.Concurrent.Ending.{total, le-total}
use orbit_commerce_platform.Inventory.StockItem.{StockItem}
use orbit_commerce_platform.Orders.Concurrent.{
  Request, System, running, finished, aborted, Step, Reserved, lock, missing, reserve, refuse,
  commit, Reach, reserve_row,
}
use orbit_commerce_platform.Catalog.Models.{Uuid}
use orbit_commerce_platform.Orders.Services.{Line}
use orbit_commerce_platform.Prelude.{
  ℕ, Option, List, [], ◌∷◌, ◌≡◌, ◌≤◌, ◌<◌, ◌+◌, ◌∙◌, refl, some, sym, ap, arith, zero, suc, inl,
  inr, none-ne-some, ◌≢◌, Option-cases,
}

strict : (p q : ℕ) → p ≤ q → p ≢ q → p < q
strict p q le ne = omega (arith, le, ne)

abbrev sum_products : List Line → ℕ
sum_products [] = 0
sum_products (line ∷ rest) = line.product_id + sum_products rest

module _ (n : ℕ) (s : System) (h : IsOrdered n s) where
  -- A request with a copy of its next row can go on.
  goes_on :
      (i : ℕ) (done : List Reserved) (line : Line) (rest : List Line)
      (mine : Uuid → Option StockItem) (row : StockItem)
      → i < n
      → s.request i ≡ running done (line ∷ rest) mine
      → mine line.product_id ≡ some row
      → (t : System) × Step n s t
  goes_on i done line rest mine row lt at held =
      elim (Option-cases (reserve_row 0 line.quantity row)) [
        | inl short ↦ (_, refuse i done line rest mine 0 row lt at held short)
        | inr (new, made) ↦ (_, reserve i done line rest mine 0 row new lt at held made)
      ]

  -- The owner of a lock can go on, or waits for a later product.
  owner_moves :
      (p j : ℕ) (r : Request)
      → j < n
      → s.request j ≡ r
      → Holds p r
      → InOrder r
      → ((done : List Reserved) (line : Line) (rest : List Line) (mine : Uuid → Option StockItem)
          → s.request j ≡ running done (line ∷ rest) mine
          → p < line.product_id
          → (t : System) × Step n s t)
      → (t : System) × Step n s t
  owner_moves p j (running done [] mine) lt at holds order waits = (_, commit j done mine lt at)
  owner_moves p j (running done (line ∷ rest) mine) lt at (x, copy) (ascending, held) waits =
      elim (Option-cases (mine line.product_id)) [
        | inr (row, next) ↦ goes_on j done line rest mine row lt at next
        | inl free ↦ waits done line rest mine at (
            strict p line.product_id (held p x copy).0
              (λ same. none-ne-some (sym free ∙ ap mine (sym same) ∙ copy)))
      ]
  owner_moves p j finished lt at holds order waits = absurd holds
  owner_moves p j aborted lt at holds order waits = absurd holds

  -- The sum of the products that the requests have still to lock.
  abbrev products : Request → ℕ
  products (running done rest mine) = sum_products rest
  products finished = 0
  products aborted = 0

  chase :
      (k i : ℕ) (done : List Reserved) (line : Line) (rest : List Line)
      (mine : Uuid → Option StockItem)
      → i < n
      → s.request i ≡ running done (line ∷ rest) mine
      → total n (λ j. products (s.request j)) < k + line.product_id
      → (t : System) × Step n s t
  chase zero i done line rest mine lt at bound =
      absurd (omega (arith, le-total n i (λ j. products (s.request j)) lt, ap products at))
  chase (suc k) i done line rest mine lt at bound = elim (Option-cases (mine line.product_id)) [
    | inr (row, held) ↦ goes_on i done line rest mine row lt at held
    | inl new ↦ elim (Option-cases (s.owner line.product_id)) [
      | inl free ↦ elim (Option-cases (s.rows line.product_id)) [
        | inl gone ↦ (_, missing i done line rest mine lt at new free gone)
        | inr (row, there) ↦ (_, lock i done line rest mine row lt at new free there)
      ]
      | inr (j, locked) ↦
          let (below, holds) = h.owned line.product_id j locked in
          owner_moves line.product_id j (s.request j) below refl holds (h.in_order j)
            (λ done' line' rest' mine' at' after.
              chase k j done' line' rest' mine' below at' (omega (arith, bound, after)))
    ]
  ]

-- If every order lists its products in ascending order, requests that place them at the same time
-- never block each other: while one of them has not ended, some request can make a step.
pub no_deadlock :
    (n : ℕ) (rows : Uuid → Option StockItem) (plan : ℕ → List Line) (s : System) (i : ℕ)
    (done : List Reserved) (rest : List Line) (mine : Uuid → Option StockItem)
    → ((j : ℕ) → Ascending (plan j))
    → Reach n rows plan s
    → i < n
    → s.request i ≡ running done rest mine
    → (t : System) × Step n s t
no_deadlock n rows plan s i done [] mine ascending r lt at = (_, commit i done mine lt at)
no_deadlock n rows plan s i done (line ∷ rest) mine ascending r lt at =
    chase n s (Reach-IsOrdered ascending r)
      (suc (total n (λ j. products n s (Reach-IsOrdered ascending r) (s.request j)))) i done line
      rest mine lt at (omega arith)

-- ===== src/Orders/Concurrent/Deadlock.antt =====
-- Two orders that name the same products in opposite orders can block each other.
use orbit_commerce_platform.Orders.Services.{Line}
use orbit_commerce_platform.Inventory.StockItem.{StockItem}
use orbit_commerce_platform.Catalog.Models.{Uuid}
use orbit_commerce_platform.Orders.Concurrent.{
  System, Request, Reserved, running, finished, aborted,
}
use orbit_commerce_platform.Prelude.{
  ◌⊎◌, ℕ, Option, List, [], ◌∷◌, ◌≡◌, ◌≢◌, ◌==◌, some, none, if◌then◌else◌,
}

-- The request waits for a row that the other one has locked.
record IsWaiting (s : System) (i j : ℕ) : Type 0 where
  done : List Reserved
  line : Line
  rest : List Line
  mine : Uuid → Option StockItem
  at : s.request i ≡ running done (line ∷ rest) mine
  new : mine line.product_id ≡ none
  locked : s.owner line.product_id ≡ some j

-- Whether the request has a step to make: its next row is copied or free, or none is left.
CanGo : (Uuid → Option ℕ) → Request → Type 0
CanGo owner (running done [] mine) = Unit
CanGo owner (running done (line ∷ rest) mine) =
    (mine line.product_id ≢ none) ⊎ (owner line.product_id ≡ none)
CanGo owner finished = Unit
CanGo owner aborted = Unit

module _ (rows : Uuid → Option StockItem) (a b : Line) (ra rb ra' rb' : StockItem) where
  -- One request orders first `a` and then `b`, the other first `b` and then `a`.
  abbrev pub opposite : ℕ → List Line
  opposite i = if i == 0 then a ∷ b ∷ [] else b ∷ a ∷ []

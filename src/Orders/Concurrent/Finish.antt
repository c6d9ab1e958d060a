-- ===== src/Orders/Concurrent/Finish.antt =====
-- How requests that place orders at the same time come to an end from wherever they are.
use orbit_commerce_platform.Orders.Services.{Line}
use orbit_commerce_platform.Inventory.StockItem.{StockItem}
use orbit_commerce_platform.Catalog.Models.{Uuid}
use orbit_commerce_platform.Orders.Concurrent.{
  Request, System, finished, running, Reserved, aborted,
}
use orbit_commerce_platform.Prelude.{ℕ, List, ◌≡◌, ◌<◌, ◌⊎◌, Option}

-- The request has committed, or was rolled back.
abbrev pub IsOver : Request → Type 0
IsOver r = (r ≡ finished) ⊎ (r ≡ aborted)

abbrev pub AllOver : ℕ → System → Type 0
AllOver n s = (i : ℕ) → i < n → IsOver (s.request i)

abbrev IsRunning : Request → Type 0
IsRunning r =
    (done : List Reserved) × ((rest : List Line) × ((mine : Uuid → Option StockItem) × (r
          ≡ running done rest mine)))

-- ===== src/Orders/Race.antt =====
-- Requests that pay and cancel orders at the same time: `pay` and `cancel` of orders/views.py load
-- an instance with `get_object` and then call the service of orders/services.py with it, and other
-- requests may act in between. A service's transaction is one step: two of them on one order wait
-- for each other at its row and at its stock. Whose orders a request may load is in Orders/Api.
pub mod Counts
pub mod Once
use orbit_commerce_platform.Common.Exceptions.{ok, Error, err}
use orbit_commerce_platform.Orders.Services.{mark_order_paid, cancel_order}
use orbit_commerce_platform.Platform.Memory.{update}
use orbit_commerce_platform.Orders.Models.{Order}
use orbit_commerce_platform.Catalog.Models.{Uuid}
use orbit_commerce_platform.Platform.Exec.{World, Exec}
use orbit_commerce_platform.Platform.Env.{Env}
use orbit_commerce_platform.Prelude.{◌≡◌, ◌∷◌, ◌++◌, ◌+◌, [], ℕ, none, Option, List, some}

pub data Action : Type 0 where
  pays cancels : Action

-- `mark_order_paid(order)`, or `cancel_order(order)`, of the instance that was loaded.
unfoldable pub act : {e : Env} → Action → Uuid → Order → Exec e Order
act pays id o = mark_order_paid id o
act cancels id o = cancel_order id o

-- The world, the instance that each request holds, and the requests whose call has returned.
pub record Race (e : Env) : Type 0 where
  pub world : World e
  pub loaded : ℕ → Option Order
  pub done : List ℕ

module _ {e : Env} (action : ℕ → Action) (target : ℕ → Uuid) where
  -- One step of some request, or time passing.
  pub data Step (s : Race e) : Race e → Type 0 where
    loads :
        (i : ℕ) (o : Order)
        → e.order s.world.rows (target i) ≡ some o
        → Step s (record s { loaded = update i (some o) s.loaded })
    returns :
        (i : ℕ) (o o' : Order)
        → s.loaded i ≡ some o
        → (act (action i) (target i) o s.world).0 ≡ ok o'
        → Step s (record {
          world = (act (action i) (target i) o s.world).1;
          loaded = update i none s.loaded;
          done = i ∷ s.done;
        })
    raises :
        (i : ℕ) (o : Order) (x : Error)
        → s.loaded i ≡ some o
        → (act (action i) (target i) o s.world).0 ≡ err x
        → Step s (record s {
          world = (act (action i) (target i) o s.world).1;
          loaded = update i none s.loaded;
        })
    waits : (n : ℕ) → Step s (record s { world = record s.world { now = s.world.now + n } })

  abbrev pub start : World e → Race e
  start w = record { world = w; loaded = λ i. none; done = [] }

  pub data Reach (w : World e) : Race e → Type 0 where
    at_first : Reach w (start w)
    later : {s t : Race e} → Reach w s → Step s t → Reach w t

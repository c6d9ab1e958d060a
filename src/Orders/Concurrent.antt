-- ===== src/Orders/Concurrent.antt =====
-- Requests that place orders at the same time: the transactions of `place_order` in
-- orders/services.py, with the row lock of `reserve_stock` in inventory/services.py. The lock, and
-- that a transaction sees and keeps its own copies of the rows it has locked until it commits, are
-- what the database documents of `select_for_update`.
pub mod Rows
pub mod Isolation
pub mod Frames
pub mod Serial
pub mod Oversell
pub mod Lines
pub mod Sequential
pub mod Ending
pub mod Ordered
pub mod Progress
pub mod Finish
pub mod Deadlock
use orbit_commerce_platform.Inventory.Writes.{reserved}
use orbit_commerce_platform.Inventory.Services.{stock_fits}
use orbit_commerce_platform.Catalog.Models.{Time, Uuid}
use orbit_commerce_platform.Platform.Memory.{update}
use orbit_commerce_platform.Inventory.StockItem.{StockItem, available_quantity}
use orbit_commerce_platform.Orders.Services.{Line}
use orbit_commerce_platform.Prelude.{
  ℕ, Bool, Option, List, ◌∷◌, ◌++◌, ◌≡◌, ◌<◌, ◌==◌, ◌&&◌, false, if◌then◌else◌, [], some, none, ltb,
}

-- What one `reserve_stock` does to the row it has locked: `none` is an exception.
unfoldable pub reserve_row : Time → ℕ → StockItem → Option StockItem
reserve_row now quantity s =
    if ltb (available_quantity s) quantity
    then none
    else (if stock_fits (reserved now quantity s) then some (reserved now quantity s) else none)

-- A line that has been reserved, and when.
pub record Reserved : Type 0 where
  pub now : Time
  pub line : Line

-- A request in its transaction: the lines that it has reserved, those to come, and its copies of
-- the rows that it has locked. Then it has committed, or was rolled back.
pub data Request : Type 0 where
  running : (done : List Reserved) (rest : List Line) (mine : Uuid → Option StockItem) → Request
  finished : Request
  aborted : Request

-- A transaction that has committed.
pub record Commit : Type 0 where
  pub request : ℕ
  pub lines : List Reserved

-- The committed rows, who has locked each of them, the requests, and the commits so far in order.
pub record System : Type 0 where
  pub rows : Uuid → Option StockItem
  pub owner : Uuid → Option ℕ
  pub request : ℕ → Request
  pub history : List Commit

abbrev pub owned_by : ℕ → Option ℕ → Bool
owned_by i none = false
owned_by i (some j) = i == j

-- The end of a transaction takes its locks away.
abbrev pub release : ℕ → (Uuid → Option ℕ) → Uuid → Option ℕ
release i owner p = if owned_by i (owner p) then none else owner p

abbrev pub write_back : Option StockItem → Option StockItem → Option StockItem
write_back none old = old
write_back (some s) old = some s

abbrev pub abort : ℕ → System → System
abort i s = record s { owner = release i s.owner; request = update i aborted s.request }

-- One step of one of `n` requests. A request whose next row another one has locked has none: it
-- waits.
pub data Step (n : ℕ) (s : System) : System → Type 0 where
  -- `select_for_update` finds the row free, and reads it.
  lock :
      (i : ℕ) (done : List Reserved) (line : Line) (rest : List Line)
      (mine : Uuid → Option StockItem) (row : StockItem)
      → i < n
      → s.request i ≡ running done (line ∷ rest) mine
      → mine line.product_id ≡ none
      → s.owner line.product_id ≡ none
      → s.rows line.product_id ≡ some row
      → Step n s (record s {
        owner = update line.product_id (some i) s.owner;
        request =
            update i
              (running done (line ∷ rest) (update line.product_id (some row) mine))
              s.request;
      })
  -- `get` raises DoesNotExist.
  missing :
      (i : ℕ) (done : List Reserved) (line : Line) (rest : List Line)
      (mine : Uuid → Option StockItem)
      → i < n
      → s.request i ≡ running done (line ∷ rest) mine
      → mine line.product_id ≡ none
      → s.owner line.product_id ≡ none
      → s.rows line.product_id ≡ none
      → Step n s (abort i s)
  -- The rest of `reserve_stock` on a locked row.
  reserve :
      (i : ℕ) (done : List Reserved) (line : Line) (rest : List Line)
      (mine : Uuid → Option StockItem) (now : Time) (row new : StockItem)
      → i < n
      → s.request i ≡ running done (line ∷ rest) mine
      → mine line.product_id ≡ some row
      → reserve_row now line.quantity row ≡ some new
      → Step n s (record s {
        request =
            update i
              (running
                (done ++ record { now = now; line = line } ∷ [])
                rest
                (update line.product_id (some new) mine))
              s.request;
      })
  refuse :
      (i : ℕ) (done : List Reserved) (line : Line) (rest : List Line)
      (mine : Uuid → Option StockItem) (now : Time) (row : StockItem)
      → i < n
      → s.request i ≡ running done (line ∷ rest) mine
      → mine line.product_id ≡ some row
      → reserve_row now line.quantity row ≡ none
      → Step n s (abort i s)
  -- The loop is through: the transaction commits.
  commit :
      (i : ℕ) (done : List Reserved) (mine : Uuid → Option StockItem)
      → i < n
      → s.request i ≡ running done [] mine
      → Step n s (record {
        rows = λ p. write_back (mine p) (s.rows p);
        owner = release i s.owner;
        request = update i finished s.request;
        history = s.history ++ record { request = i; lines = done } ∷ [];
      })

-- A step, or an exception anywhere else in a transaction.
pub data Event (n : ℕ) (s : System) : System → Type 0 where
  step : {t : System} → Step n s t → Event n s t
  fail :
      (i : ℕ) (done : List Reserved) (rest : List Line) (mine : Uuid → Option StockItem)
      → i < n
      → s.request i ≡ running done rest mine
      → Event n s (abort i s)

abbrev pub no_copies : Uuid → Option StockItem
no_copies p = none

abbrev pub no_owner : Uuid → Option ℕ
no_owner p = none

-- The requests `plan`, none of which has begun.
abbrev pub init : (Uuid → Option StockItem) → (ℕ → List Line) → System
init rows plan = record {
  rows = rows;
  owner = no_owner;
  request = λ i. running [] (plan i) no_copies;
  history = [];
}

pub data Reach (n : ℕ) (rows : Uuid → Option StockItem) (plan : ℕ → List Line)
    : System → Type 0 where
  start : Reach n rows plan (init rows plan)
  later : {s t : System} → Reach n rows plan s → Event n s t → Reach n rows plan t

-- ===== src/Orders/Concurrent/Ending.antt =====
-- How many events the requests that place orders at the same time have ahead of them.
use mathlib.Core.Path.{subst}
use orbit_commerce_platform.Orders.Services.{Line}
use orbit_commerce_platform.Inventory.StockItem.{StockItem}
use orbit_commerce_platform.Platform.Memory.{update}
use orbit_commerce_platform.Orders.Concurrent.{
  System, Reserved, Request, running, Event, Step, step, init, lock, finished, missing, fail,
  aborted, reserve, no_copies, refuse, commit,
}
use orbit_commerce_platform.Catalog.Models.{Uuid}
use orbit_commerce_platform.Prelude.{
  ◌++◌, ℕ, Option, List, ◌∷◌, ◌≡◌, ◌≤◌, ◌<◌, ◌+◌, ◌*◌, ◌==◌, refl, some, arith, zero, suc, false,
  Bool-cases, inl, ap, none, ==_iff, [], length, ==_refl, sym, inr,
}

pub before : (n i : ℕ) → i < suc n → (i == n) ≡ false → i < n
before n i lt ne = ground arith

apart : (n j : ℕ) → j < n → (n == j) ≡ false
apart n j lt = ground arith

abbrev pub total : ℕ → (ℕ → ℕ) → ℕ
total zero w = 0
total (suc n) w = total n w + w n

pub le-total : (n i : ℕ) (w : ℕ → ℕ) → i < n → w i ≤ total n w
le-total zero i w lt = absurd (omega (arith, lt))
le-total (suc n) i w lt = elim (Bool-cases (i == n)) [
  | inl same ↦ subst (λ k. w k ≤ total n w + w n) (sym ((==_iff i n).0 same)) (omega arith)
  | inr ne ↦ omega (arith, le-total n i w (before n i lt ne))
]

total-ext : (n : ℕ) (v w : ℕ → ℕ) → ((j : ℕ) → j < n → v j ≡ w j) → total n v ≡ total n w
total-ext zero v w same = refl
total-ext (suc n) v w same =
    omega (arith, total-ext n v w (λ j lt. same j (omega (arith, lt))), same n (omega arith))

-- The steps that a request has ahead of it.
abbrev pub ahead : Request → ℕ
ahead (running done [] mine) = 1
ahead (running done (line ∷ rest) mine) =
    2 * length rest + 2 + (elim (mine line.product_id) [ none ↦ 1 | some row ↦ 0 ])
ahead finished = 0
ahead aborted = 0

abbrev pub all_ahead : ℕ → System → ℕ
all_ahead n s = total n (λ i. ahead (s.request i))

total-update :
    (n i : ℕ) (r : Request) (request : ℕ → Request)
    → i < n
    → total n (λ j. ahead (update i r request j)) + ahead (request i)
      ≡ total n (λ j. ahead (request j)) + ahead r
total-update zero i r request lt = absurd (omega (arith, lt))
total-update (suc n) i r request lt = elim (Bool-cases (i == n)) [
  | inl same ↦
      rw ((==_iff i n).0 same, ==_refl n)
        (omega (
          arith,
          total-ext n (λ j. ahead (update n r request j)) (λ j. ahead (request j))
              (λ j below. rw (apart n j below) refl),
        ))
  | inr ne ↦ rw ne (omega (arith, total-update n i r request (before n i lt ne)))
]

ahead-lock :
    (done : List Reserved) (line : Line) (rest : List Line) (mine : Uuid → Option StockItem)
    (row : StockItem)
    → mine line.product_id ≡ none
    → ahead (running done (line ∷ rest) (update line.product_id (some row) mine))
      < ahead (running done (line ∷ rest) mine)
ahead-lock done line rest mine row new = rw (new, ==_refl line.product_id) (omega arith)

ahead-reserve :
    (done done' : List Reserved) (line : Line) (rest : List Line)
    (mine mine' : Uuid → Option StockItem)
    → ahead (running done' rest mine') < ahead (running done (line ∷ rest) mine)
ahead-reserve done done' line [] mine mine' = ground arith
ahead-reserve done done' line (next ∷ rest) mine mine' = ground arith

ahead-pos :
    (done : List Reserved) (rest : List Line) (mine : Uuid → Option StockItem)
    → 0 < ahead (running done rest mine)
ahead-pos done [] mine = omega arith
ahead-pos done (line ∷ rest) mine = omega arith

-- A run of so many events.
pub data Run (n : ℕ) (s : System) : ℕ → System → Type 0 where
  stay : Run n s 0 s
  and_then : {k : ℕ} {t u : System} → Run n s k t → Event n t u → Run n s (suc k) u

module _ (n : ℕ) (s : System) where
  -- A request that has less ahead of it.
  less :
      (i : ℕ) (old new : Request)
      → i < n
      → s.request i ≡ old
      → ahead new < ahead old
      → total n (λ j. ahead (update i new s.request j)) < all_ahead n s
  less i old new lt now fewer = omega (arith, total-update n i new s.request lt, ap ahead now)

  pub Step-ahead : {t : System} → Step n s t → all_ahead n t < all_ahead n s
  Step-ahead (lock i done line rest mine row lt now new free there) =
      less i _ _ lt now (ahead-lock done line rest mine row new)
  Step-ahead (missing i done line rest mine lt now new free gone) =
      less i _ aborted lt now (ahead-pos done (line ∷ rest) mine)
  Step-ahead (reserve i done line rest mine now row new lt at held made) = less i _ _ lt at (
      ahead-reserve done (done ++ record { now = now; line = line } ∷ []) line rest mine
        (update line.product_id (some new) mine))
  Step-ahead (refuse i done line rest mine now row lt at held short) =
      less i _ aborted lt at (ahead-pos done (line ∷ rest) mine)
  Step-ahead (commit i done mine lt at) = less i _ finished lt at (ahead-pos done [] mine)

  Event-ahead : {t : System} → Event n s t → all_ahead n t < all_ahead n s
  Event-ahead (step st) = Step-ahead st
  Event-ahead (fail i done rest mine lt at) = less i _ aborted lt at (ahead-pos done rest mine)

ahead-init : (lines : List Line) → ahead (running [] lines no_copies) ≡ 2 * length lines + 1
ahead-init [] = omega arith
ahead-init (line ∷ rest) = omega arith

pub Run-ahead :
    {n : ℕ} {s : System} {k : ℕ} {t : System} → Run n s k t → k + all_ahead n t ≤ all_ahead n s
Run-ahead stay = omega arith
Run-ahead {n} (and_then {k} {t} {u} r e) = omega (arith, Run-ahead r, Event-ahead n t e)

pub run-total :
    (n k : ℕ) (rows : Uuid → Option StockItem) (plan : ℕ → List Line) (t : System)
    → Run n (init rows plan) k t
    → k + all_ahead n t ≤ total n (λ i. 2 * length (plan i) + 1)
run-total n k rows plan t r = omega (
  arith,
  Run-ahead r,
  total-ext n (λ i. ahead (running [] (plan i) no_copies)) (λ i. 2 * length (plan i) + 1)
      (λ i lt. ahead-init (plan i)),
)

-- ===== src/Inventory/Invariant.antt =====
-- No product is ever oversold by inventory/services.py: the counters stay consistent under any
-- sequence of calls, and reserving decides exactly by what is available.
use mathlib.Core.Path.{subst}
use orbit_commerce_platform.Prelude.{
  ℕ, ◌≤◌, ◌≡◌, sym, ap, ◌∙◌, inl, inr, true, some, List, [], ◌∷◌, arith, ◌==◌, Bool-cases, ==_iff,
  some_injective,
}
use orbit_commerce_platform.Catalog.Models.{Uuid}
use orbit_commerce_platform.Inventory.StockItem.{StockItem, available_quantity}
use orbit_commerce_platform.Inventory.Services.{
  reserve_stock, release_stock, commit_stock, stock_fits, max_positive_integer,
}
use orbit_commerce_platform.Inventory.Writes.{
  Writes, AnyStock, reserved, released, committed, reserve_stock-Writes, release_stock-Writes,
  commit_stock-Writes,
}
use orbit_commerce_platform.Common.Exceptions.{Result, ok, err}
use orbit_commerce_platform.Platform.Env.{Env, IsDatabase}
use orbit_commerce_platform.Platform.Exec.{World, Exec}

-- What is reserved is on hand, and what is on hand can be stored.
pub record IsConsistent (s : StockItem) : Type 0 where
  pub covered : s.reserved_quantity ≤ s.quantity
  pub storable : s.quantity ≤ max_positive_integer

-- Every stock row of the database is consistent.
pub record AllConsistent {e : Env} (w : World e) : Type 0 where
  pub at : (p : Uuid) (s : StockItem) → e.stock_item w.rows p ≡ some s → IsConsistent s

-- A change of one row that keeps it consistent keeps them all.
pub Writes-AllConsistent :
    {e : Env} (pre : StockItem → Type 0) (change : StockItem → StockItem) (p : Uuid) (w : World e)
    (out : Result StockItem × World e)
    → ((s : StockItem) → pre s → IsConsistent s → IsConsistent (change s))
    → AllConsistent w
    → Writes pre change p w out
    → AllConsistent out.1
Writes-AllConsistent {e} pre change p w (ok s', w') keep all (old, holds, _, write) = record {
  at = λ q s there. elim (Bool-cases (p == q)) [
    | inl same ↦
        subst IsConsistent
          (some_injective
            (sym write.here ∙ ap (e.stock_item w'.rows) ((==_iff p q).0 same) ∙ there))
          (keep old holds (all.at p old write.was))
    | inr other ↦ all.at q s (rw (← write.others q other) there)
  ];
}
Writes-AllConsistent {e} pre change p w (err x, w') keep all (rows, _) = record {
  at = λ q s there. all.at q s (rw (← rows) there);
}

-- The counters of a consistent row pass the range check of a save.
pub IsConsistent-fits : (s : StockItem) → IsConsistent s → stock_fits s ≡ true
unfolding stock_fits
IsConsistent-fits s h = ground arith

pub reserved-IsConsistent :
    (now q : ℕ) (s : StockItem)
    → q ≤ available_quantity s
    → IsConsistent s
    → IsConsistent (reserved now q s)
unfolding available_quantity
reserved-IsConsistent now q s h k = omega arith

pub released-IsConsistent :
    (now q : ℕ) (s : StockItem) → IsConsistent s → IsConsistent (released now q s)
released-IsConsistent now q s h = omega arith

pub committed-IsConsistent :
    (now q : ℕ) (s : StockItem) → IsConsistent s → IsConsistent (committed now q s)
committed-IsConsistent now q s h = omega arith

pub data Call : Type 0 where
  reserve release commit : Uuid → ℕ → Call

pub call : {e : Env} → Call → Exec e StockItem
call (reserve p q) = reserve_stock p q
call (release p q) = release_stock p q
call (commit p q) = commit_stock p q

-- A caller that goes on after a call that raised.
pub run : {e : Env} → List Call → World e → World e
unfolding call
run [] w = w
run (c ∷ cs) w = run cs (call c w).1

call-AllConsistent :
    {e : Env} (laws : IsDatabase e) (c : Call) (w : World e)
    → AllConsistent w
    → AllConsistent (call c w).1
unfolding call
call-AllConsistent laws (reserve p q) w all =
    Writes-AllConsistent (λ s. q ≤ available_quantity s) (reserved w.now q) p w _
      (λ s h k. reserved-IsConsistent w.now q s h k) all (reserve_stock-Writes laws p q w)
call-AllConsistent laws (release p q) w all =
    Writes-AllConsistent AnyStock (released w.now q) p w _
      (λ s h k. released-IsConsistent w.now q s k) all (release_stock-Writes laws p q w)
call-AllConsistent laws (commit p q) w all =
    Writes-AllConsistent AnyStock (committed w.now q) p w _
      (λ s h k. committed-IsConsistent w.now q s k) all (commit_stock-Writes laws p q w)

-- Whatever reservations, releases and commits are made, in any order and with any quantities,
-- whether they succeed or raise: if at first no row had more reserved than on hand, and no
-- quantity was beyond the column's range, then so it is afterwards.
pub run-AllConsistent :
    {e : Env} (laws : IsDatabase e) (cs : List Call) (w : World e)
    → AllConsistent w
    → AllConsistent (run cs w)
unfolding run
run-AllConsistent laws [] w all = all
run-AllConsistent laws (c ∷ cs) w all =
    run-AllConsistent laws cs (call c w).1 (call-AllConsistent laws c w all)

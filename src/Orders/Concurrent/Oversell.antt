-- ===== src/Orders/Concurrent/Oversell.antt =====
-- Requests that place orders at the same time never reserve more than there is.
use orbit_commerce_platform.Orders.Concurrent.Serial.{commits_serialize}
use mathlib.Core.Path.{subst}
use orbit_commerce_platform.Orders.Services.{Line}
use orbit_commerce_platform.Inventory.StockItem.{StockItem, available_quantity}
use orbit_commerce_platform.Orders.Concurrent.Isolation.{after, all_lines}
use orbit_commerce_platform.Orders.Concurrent.{
  reserve_row, Reserved, System, Reach, Event, later, write_back, start, step, lock, missing,
  reserve, refuse, commit, fail,
}
use orbit_commerce_platform.Catalog.Models.{Uuid}
use orbit_commerce_platform.Prelude.{
  sym, ℕ, Option, List, ◌∷◌, ◌≡◌, ◌≤◌, ◌+◌, ◌==◌, ◌∙◌, refl, some, arith, if◌then◌else◌, [],
  Option-cases, inl, some_injective, inr, Bool-cases, none-ne-some, none,
}

-- The units of `p` in the lines.
abbrev pub ordered : Uuid → List Reserved → ℕ
ordered p [] = 0
ordered p (d ∷ ds) = (if d.line.product_id == p then d.line.quantity else 0) + ordered p ds

reserve_row-counts :
    (now q : ℕ) (x y : StockItem)
    → reserve_row now q x ≡ some y
    → (y.quantity ≡ x.quantity)
      × (y.reserved_quantity ≡ x.reserved_quantity + q)
      × (q ≤ available_quantity x)
unfolding reserve_row
reserve_row-counts now q x y h = ground arith

within :
    (x z : StockItem) (q : ℕ)
    → z.quantity ≡ x.quantity
    → z.reserved_quantity ≡ x.reserved_quantity + q
    → q ≤ available_quantity x
    → x.reserved_quantity ≤ x.quantity
    → z.reserved_quantity ≤ z.quantity
unfolding available_quantity
within x z q same more room fits = omega arith

after-counts :
    (ds : List Reserved) (p : Uuid) (x y : StockItem)
    → x.reserved_quantity ≤ x.quantity
    → after ds p x ≡ some y
    → (y.quantity ≡ x.quantity)
      × (y.reserved_quantity ≡ x.reserved_quantity + ordered p ds)
      × (y.reserved_quantity ≤ y.quantity)
unfolding after
after-counts [] p x y fits h =
    subst
      (λ z.
        (z.quantity ≡ x.quantity)
        × (z.reserved_quantity ≡ x.reserved_quantity + 0)
        × (z.reserved_quantity ≤ z.quantity))
      (some_injective h) (refl, omega arith, fits)
after-counts (d ∷ ds) p x y fits h = elim (Bool-cases (d.line.product_id == p)) [
  | inl here ↦ elim (Option-cases (reserve_row d.now d.line.quantity x)) [
    | inl refused ↦ absurd (none-ne-some (rw (after, here, refused) at h))
    | inr (z, made) ↦
        let (same, more, room) = reserve_row-counts d.now d.line.quantity x z made in
        let (kept, total, covered) =
          after-counts ds p z y (within x z d.line.quantity same more room fits)
            (rw (after, here, made) at h) in
        rw here (kept ∙ same, omega (arith, total, more), covered)
  ]
  | inr there ↦
      let (kept, total, covered) = after-counts ds p x y fits (rw (after, there) at h) in
      rw there (kept, omega (arith, total), covered)
]

write_back-some :
    (o old : Option StockItem) (x : StockItem)
    → old ≡ some x
    → (y : StockItem) × (write_back o old ≡ some y)
write_back-some none old x h = (x, h)
write_back-some (some y) old x h = (y, refl)

-- No step takes a row away.
Event-present :
    (n : ℕ) (s : System) (p : Uuid) (x : StockItem) {t : System}
    → Event n s t
    → s.rows p ≡ some x
    → (y : StockItem) × (t.rows p ≡ some y)
Event-present n s p x (step (lock i done line rest mine row lt at new free there)) h = (x, h)
Event-present n s p x (step (missing i done line rest mine lt at new free gone)) h = (x, h)
Event-present n s p x (step (reserve i done line rest mine now row new lt at held made)) h = (x, h)
Event-present n s p x (step (refuse i done line rest mine now row lt at held short)) h = (x, h)
Event-present n s p x (step (commit i done mine lt at)) h = write_back-some (mine p) (s.rows p) x h
Event-present n s p x (fail i done rest mine lt at) h = (x, h)

pub Reach-present :
    {n : ℕ} {rows : Uuid → Option StockItem} {plan : ℕ → List Line} {s : System} (p : Uuid)
    (first : StockItem)
    → rows p ≡ some first
    → Reach n rows plan s
    → (x : StockItem) × (s.rows p ≡ some x)
Reach-present p first there start = (first, there)
Reach-present {n} p first there (later {s} r e) =
    let (x, h) = Reach-present p first there r in Event-present n s p x e h

-- However the requests interleave, and whichever fail: a product with a stock row keeps its stock
-- on hand, has been reserved for exactly the units that the committed requests ordered, no update
-- lost, and is never reserved beyond the stock on hand.
pub no_oversell :
    (n : ℕ) (rows : Uuid → Option StockItem) (plan : ℕ → List Line) (s : System) (p : Uuid)
    (first : StockItem)
    → Reach n rows plan s
    → rows p ≡ some first
    → first.reserved_quantity ≤ first.quantity
    → (now : StockItem) × (s.rows p ≡ some now)
      × (now.quantity ≡ first.quantity)
      × (now.reserved_quantity ≡ first.reserved_quantity + ordered p (all_lines s.history))
      × (now.reserved_quantity ≤ now.quantity)
no_oversell n rows plan s p first r there fits =
    let (now, here) = Reach-present p first there r in
    let run : after (all_lines s.history) p first ≡ some now =
      sym (rw there at ((commits_serialize n rows plan s r).0 p)) ∙ here in
    let (kept, total, covered) = after-counts (all_lines s.history) p first now fits run in
    (now, here, kept, total, covered)

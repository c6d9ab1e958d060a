-- ===== src/Orders/Counters.antt =====
-- The counters by which the order services are specified: what is on hand and reserved of a
-- product, how many units of it a list of lines or items asks for, and what the items cost.
use native.Mathlib.Decide.{ℕ_discrete}
use native.Mathlib.Nat.{ℕ_set}
use orbit_commerce_platform.Inventory.Writes.{StockWrite, reserved, released, committed}
use orbit_commerce_platform.Platform.Exec.{World}
use orbit_commerce_platform.Orders.Models.{OrderItem, sum_from}
use orbit_commerce_platform.Orders.Services.{Line}
use orbit_commerce_platform.Inventory.StockItem.{StockItem, available_quantity}
use orbit_commerce_platform.Platform.Env.{Env}
use orbit_commerce_platform.Catalog.Models.{Uuid}
use mathlib.Core.HLevel.{hedberg}
use mathlib.Core.Logic.{∥∥₁_elim}
use mathlib.Core.List.{Perm, Permᴰ}
use orbit_commerce_platform.Prelude.{
  ℕ, Option, List, ℤ, some, ◌∷◌, ◌≡◌, if◌then◌else◌, pos, ◌==◌, ◌*ℤ◌, Bool-cases, ◌+◌, ◌+ℤ◌, inl,
  inr, none, ap, int_laws, [], arith, sym, ◌∙◌, ==_iff, refl, ◌-◌, Bool, ◌≤◌, true, false,
}

abbrev quantity_of : Option StockItem → ℕ
quantity_of none = 0
quantity_of (some s) = s.quantity

abbrev reserved_of : Option StockItem → ℕ
reserved_of none = 0
reserved_of (some s) = s.reserved_quantity

abbrev pub quantity_at : {e : Env} → World e → Uuid → ℕ
quantity_at {e} w p = quantity_of (e.stock_item w.rows p)

abbrev pub reserved_at : {e : Env} → World e → Uuid → ℕ
reserved_at {e} w p = reserved_of (e.stock_item w.rows p)

-- The units of `p` among the items of an order.
abbrev pub units : Uuid → List OrderItem → ℕ
units p [] = 0
units p (i ∷ rest) = (if i.product == p then i.quantity else 0) + units p rest

abbrev pub ordered : Uuid → List Line → ℕ
ordered p [] = 0
ordered p (l ∷ rest) = (if l.product_id == p then l.quantity else 0) + ordered p rest

abbrev pub amount : List OrderItem → ℤ
amount [] = pos 0
amount (i ∷ rest) = i.unit_price *ℤ pos i.quantity +ℤ amount rest

pub sum_from-amount : (acc : ℤ) (items : List OrderItem) → sum_from acc items ≡ acc +ℤ amount items
unfolding sum_from
sum_from-amount acc [] = omega int_laws
sum_from-amount acc (i ∷ rest) =
    rw (sum_from-amount (acc +ℤ i.unit_price *ℤ pos i.quantity) rest) (omega int_laws)

-- Neither depends on the order in which the items are read.
units-permᴰ : (p : Uuid) {xs ys : List OrderItem} → Permᴰ xs ys → units p xs ≡ units p ys
units-permᴰ p Permᴰ.nil = refl
units-permᴰ p (Permᴰ.cons e d) = rw e (omega (arith, units-permᴰ p d))
units-permᴰ p (Permᴰ.swap e f) = rw (e, f) (omega arith)
units-permᴰ p (Permᴰ.trans c d) = units-permᴰ p c ∙ units-permᴰ p d

pub units-perm : (p : Uuid) {xs ys : List OrderItem} → Perm xs ys → units p xs ≡ units p ys
units-perm p h = ∥∥₁_elim h (ℕ_set _ _) (units-permᴰ p)

amount-permᴰ : {xs ys : List OrderItem} → Permᴰ xs ys → amount xs ≡ amount ys
amount-permᴰ Permᴰ.nil = refl
amount-permᴰ (Permᴰ.cons e d) = rw (e, amount-permᴰ d)
amount-permᴰ (Permᴰ.swap e f) = rw (e, f) (omega int_laws)
amount-permᴰ (Permᴰ.trans c d) = amount-permᴰ c ∙ amount-permᴰ d

ℤ-set : IsSet ℤ
ℤ-set = hedberg (hlevel ℕ_discrete)

pub amount-perm : {xs ys : List OrderItem} → Perm xs ys → amount xs ≡ amount ys
amount-perm h = ∥∥₁_elim h (ℤ-set _ _) amount-permᴰ

-- A write of one row, read through a counter of the row on which it acts by `g`.
StockWrite-counter :
    {e : Env} {p : Uuid} {old new : StockItem} {w w' : World e} (count : Option StockItem → ℕ)
    (g : ℕ → ℕ)
    → count (some new) ≡ g (count (some old))
    → StockWrite p old new w w'
    → (q : Uuid)
    → count (e.stock_item w'.rows q)
      ≡ (if p == q then g (count (e.stock_item w.rows q)) else count (e.stock_item w.rows q))
StockWrite-counter {e} {p} {old} {new} {w} {w'} count g eq write q = elim (Bool-cases (p == q)) [
  | inl same ↦
      let here : e.stock_item w'.rows q ≡ some new =
        ap (e.stock_item w'.rows) (sym ((==_iff p q).0 same)) ∙ write.here in
      let was : e.stock_item w.rows q ≡ some old =
        ap (e.stock_item w.rows) (sym ((==_iff p q).0 same)) ∙ write.was in
      rw (here, was, same) eq
  | inr other ↦ rw (other, write.others q other)
]

module _ {e : Env} {p : Uuid} {old : StockItem} (now n : ℕ) {w w' : World e} where
  pub reserved-reserved :
      StockWrite p old (reserved now n old) w w'
      → (q : Uuid) → reserved_at w' q ≡ reserved_at w q + (if p == q then n else 0)
  reserved-reserved write q =
      rw (StockWrite-counter reserved_of (λ m. m + n) refl write q) (ground arith)

  pub quantity-reserved :
      StockWrite p old (reserved now n old) w w' → (q : Uuid) → quantity_at w' q ≡ quantity_at w q
  quantity-reserved write q =
      rw (StockWrite-counter quantity_of (λ m. m) refl write q) (ground arith)

  pub reserved-released :
      StockWrite p old (released now n old) w w'
      → (q : Uuid) → reserved_at w' q ≡ reserved_at w q - (if p == q then n else 0)
  reserved-released write q =
      rw (StockWrite-counter reserved_of (λ m. m - n) refl write q) (ground arith)

  pub quantity-released :
      StockWrite p old (released now n old) w w' → (q : Uuid) → quantity_at w' q ≡ quantity_at w q
  quantity-released write q =
      rw (StockWrite-counter quantity_of (λ m. m) refl write q) (ground arith)

  pub reserved-committed :
      StockWrite p old (committed now n old) w w'
      → (q : Uuid) → reserved_at w' q ≡ reserved_at w q - (if p == q then n else 0)
  reserved-committed write q =
      rw (StockWrite-counter reserved_of (λ m. m - n) refl write q) (ground arith)

  pub quantity-committed :
      StockWrite p old (committed now n old) w w'
      → (q : Uuid) → quantity_at w' q ≡ quantity_at w q - (if p == q then n else 0)
  quantity-committed write q =
      rw (StockWrite-counter quantity_of (λ m. m - n) refl write q) (ground arith)

if_true : {b : Bool} → b ≡ true → (n : ℕ) → (if b then n else 0) ≡ n
if_true h n = rw h

if_false : {b : Bool} → b ≡ false → (n : ℕ) → (if b then n else 0) ≡ 0
if_false h n = rw h

-- Reserving no more than is available keeps the reservations within the stock on hand.
pub covered-reserved :
    {e : Env} {p : Uuid} {old : StockItem} (now n : ℕ) {w w' : World e}
    → n ≤ available_quantity old
    → StockWrite p old (reserved now n old) w w'
    → (q : Uuid) → reserved_at w q ≤ quantity_at w q
    → reserved_at w' q ≤ quantity_at w' q
unfolding available_quantity
covered-reserved {e} {p} {old} now n {w} {w'} enough write q fits = elim (Bool-cases (p == q)) [
  | inl same ↦
      let was : e.stock_item w.rows q ≡ some old =
        ap (e.stock_item w.rows) (sym ((==_iff p q).0 same)) ∙ write.was in
      omega (
        arith,
        reserved-reserved now n write q,
        quantity-reserved now n write q,
        ap quantity_of was,
        ap reserved_of was,
        if_true same n,
      )
  | inr other ↦ omega (
    arith,
    fits,
    reserved-reserved now n write q,
    quantity-reserved now n write q,
    if_false other n,
  )
]

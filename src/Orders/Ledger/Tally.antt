-- ===== src/Orders/Ledger/Tally.antt =====
-- The units of a product over a list of orders, by the status of their rows.
use orbit_commerce_platform.Orders.Counters.{units}
use orbit_commerce_platform.Platform.Exec.{World}
use orbit_commerce_platform.Platform.Env.{Env}
use orbit_commerce_platform.Catalog.Models.{Uuid}
use orbit_commerce_platform.Orders.Models.{
  Status, pending, Order, paid, shipped, OrderItem, delivered,
}
use orbit_commerce_platform.Prelude.{
  ℕ, List, ◌==◌, Bool, All, ◌≡◌, ◌∷◌, true, ◌⊎◌, [], Option, false, ◌+◌, arith, refl, inl, inr,
  some, if◌then◌else◌, none,
}

-- The key `j` is not in the list.
abbrev pub Absent : Uuid → List Uuid → Type 0
Absent j ids = All (λ i. (i == j) ≡ false) ids

abbrev pub Distinct : List Uuid → Type 0
Distinct [] = Unit
Distinct (i ∷ ids) = Absent i ids × Distinct ids

abbrev pub Listed : Uuid → List Uuid → Type 0
Listed j [] = ⊥
Listed j (i ∷ ids) = (i ≡ j) ⊎ Listed j ids

abbrev pub held : Status → Bool
held pending = true
held _ = false

-- The statuses of an order whose stock has been committed.
abbrev pub sold : Status → Bool
sold paid = true
sold shipped = true
sold delivered = true
sold _ = false

abbrev pub row_is : (Status → Bool) → Option Order → Bool
row_is test none = false
row_is test (some o) = test o.status

-- The units of `p` in one order, if its row passes the test.
abbrev pub share : (Status → Bool) → Uuid → Option Order → List OrderItem → ℕ
share test p row items = if row_is test row then units p items else 0

unfoldable pub tally : {e : Env} → (Status → Bool) → World e → Uuid → List Uuid → ℕ
tally test w p [] = 0
tally {e} test w p (i ∷ ids) =
    share test p (e.order w.rows i) (e.items w.rows i) + tally test w p ids

Listed-ne : (i j : Uuid) (ids : List Uuid) → Absent i ids → Listed j ids → (j == i) ≡ false
Listed-ne i j [] a l = elim l [ ]
Listed-ne i j (k ∷ ids) a (inl same) = rw (← same) a.0
Listed-ne i j (k ∷ ids) a (inr later) = Listed-ne i j ids a.1 later

==_flip : (i j : ℕ) → (i == j) ≡ false → (j == i) ≡ false
==_flip i j h = ground arith

module _ {e : Env} (test : Status → Bool) (w w' : World e) (p id : Uuid)
    (orders : (j : Uuid) → (id == j) ≡ false → e.order w'.rows j ≡ e.order w.rows j)
    (others : (j : Uuid) → (id == j) ≡ false → e.items w'.rows j ≡ e.items w.rows j) where
  -- What happens to one order does not change the tally of the others.
  pub tally-Absent : (ids : List Uuid) → Absent id ids → tally test w' p ids ≡ tally test w p ids
  unfolding tally
  tally-Absent [] a = refl
  tally-Absent (i ∷ ids) a =
      let ne : (id == i) ≡ false = ==_flip i id a.0 in
      rw (orders i ne, others i ne, tally-Absent ids a.1)

  -- A tally changes by what the order's share changes.
  pub tally-Listed :
      (ids : List Uuid)
      → Distinct ids
      → Listed id ids
      → tally test w' p ids + share test p (e.order w.rows id) (e.items w.rows id)
        ≡ tally test w p ids + share test p (e.order w'.rows id) (e.items w'.rows id)
  unfolding tally
  tally-Listed [] d l = elim l [ ]
  tally-Listed (i ∷ ids) d (inl same) = rw same (omega (arith, tally-Absent ids (rw (← same) d.0)))
  tally-Listed (i ∷ ids) d (inr later) =
      let ne : (id == i) ≡ false = Listed-ne i id ids d.0 later in
      rw (orders i ne, others i ne) (omega (arith, tally-Listed ids d.1 later))

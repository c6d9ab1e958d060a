-- ===== src/Orders/Concurrent/Lines.antt =====
-- The loop of `place_order`, as it is modelled in Orders/Services, against the lines of one request
-- after another.
use orbit_commerce_platform.Orders.Concurrent.Rows.{reserve_stock-reserve_row}
use orbit_commerce_platform.Common.Exceptions.{Result, ok, Error, err}
use orbit_commerce_platform.Orders.Concurrent.Isolation.{then_row, after}
use orbit_commerce_platform.Inventory.Writes.{reserved, StockWrite}
use orbit_commerce_platform.Inventory.StockItem.{StockItem}
use orbit_commerce_platform.Inventory.Services.{stock_fits, count_fits, reserve_stock}
use orbit_commerce_platform.Platform.Exec.{World}
use orbit_commerce_platform.Orders.Services.{
  active_product, Line, place_lines, get_product, create_item,
}
use orbit_commerce_platform.Catalog.Models.{Time, Uuid, Product}
use orbit_commerce_platform.Platform.Env.{Env, IsDatabase}
use orbit_commerce_platform.Orders.Concurrent.{reserve_row, Reserved}
use orbit_commerce_platform.Prelude.{
  ◌≡◌, ◌≢◌, ◌⊎◌, ◌<◌, ◌∷◌, ◌&&◌, ◌==◌, ◌∙◌, ◌+ℤ◌, ◌*ℤ◌, [], true, some, List, Option, ℕ, ℤ, ltb,
  Bool-cases, arith, none, inl, refl, ap, if◌then◌else◌, inr, none-ne-some, sym, ==_iff, Bool,
  Option-cases, false, All, pos, ==_refl,
}

-- The lines, all at one time.
abbrev pub timed : Time → List Line → List Reserved
timed now [] = []
timed now (line ∷ rest) = record { now = now; line = line } ∷ timed now rest

-- The product of the line is active, its stock has a row, and some units are ordered.
abbrev pub IsReady : {e : Env} → World e → Line → Type 0
IsReady {e} w line =
    ((product : Product) × (active_product (e.product w.rows line.product_id) ≡ some product))
    × ((s : StockItem) × (e.stock_item w.rows line.product_id ≡ some s))
    × (0 < line.quantity)

if_some : (b : Bool) (y x : Product) → (if b then some y else none) ≡ some x → some y ≡ some x
if_some true y x h = h
if_some false y x h = absurd (none-ne-some h)

active-there : (o : Option Product) (x : Product) → active_product o ≡ some x → o ≡ some x
unfolding active_product
active-there none x h = cc
active-there (some y) x h = if_some y.is_active y x h

-- A row that could be reserved holds counts in range, and so is the quantity.
item_fits :
    (now q : ℕ) (s new : StockItem)
    → 0 < q
    → reserve_row now q s ≡ some new
    → (ltb 0 q && count_fits q) ≡ true
unfolding reserve_row stock_fits count_fits
item_fits now q s new positive made = ground arith

reserve_row-new :
    (now q : ℕ) (s new : StockItem) → reserve_row now q s ≡ some new → new ≡ reserved now q s
unfolding reserve_row
reserve_row-new now q s new made = ground arith

-- The row of `p` after the lines, one after the other.
abbrev pub row_after : {e : Env} → World e → List Line → Uuid → Option StockItem
row_after {e} w lines p = then_row (e.stock_item w.rows p) (after (timed w.now lines) p)

-- The loop has run as the lines do one after the other: it returned and left these rows, none of
-- which was refused, with every line as ready as it was; or it raised, and on some row they cannot
-- all be reserved.
abbrev pub Decides : {e : Env} → List Line → World e → Result ℤ × World e → Type 0
Decides {e} lines w out =
    ((total : ℤ) × (out.0 ≡ ok total)
      × ((p : Uuid) → e.stock_item out.1.rows p ≡ row_after w lines p)
      × ((p : Uuid) → e.stock_item w.rows p ≢ none → row_after w lines p ≢ none)
      × ((l : Line) → IsReady w l → IsReady out.1 l))
    ⊎ ((x : Error) × (out.0 ≡ err x)
        × (p : Uuid) × (e.stock_item w.rows p ≢ none)
        × (row_after w lines p ≡ none))

pub then_row-some : (o : Option StockItem) → o ≡ then_row o (λ s. some s)
then_row-some none = refl
then_row-some (some s) = refl

pub All-map :
    (P Q : Line → Type 0) (xs : List Line) → ((x : Line) → P x → Q x) → All P xs → All Q xs
All-map P Q [] f h = tt
All-map P Q (x ∷ xs) f (h, hs) = (f x h, All-map P Q xs f hs)

module _ {e : Env} (laws : IsDatabase e) (id : Uuid) where
  -- After a round, the lines to come find what the round left.
  module _ (line : Line) (rest : List Line) (price : ℤ) (w w1 : World e) (s new : StockItem)
      (row : e.stock_item w.rows line.product_id ≡ some s)
      (made : reserve_row w.now line.quantity s ≡ some new)
      (write : StockWrite line.product_id s new w w1) where
    abbrev next : World e
    next = record w1 {
      rows =
          e.insert_item id
            (record { product = line.product_id; quantity = line.quantity; unit_price = price })
            w1.rows;
    }

    next-stock :
        (p : Uuid)
        → e.stock_item next.rows p
          ≡ (if line.product_id == p then some new else e.stock_item w.rows p)
    next-stock p = elim (Bool-cases (line.product_id == p)) [
      | inl same ↦ rw same (
          laws.stock_item-insert_item _ _ _ _
          ∙ ap (e.stock_item w1.rows) (sym ((==_iff line.product_id p).0 same))
          ∙ write.here)
      | inr other ↦ rw other (laws.stock_item-insert_item _ _ _ _ ∙ write.others p other)
    ]

    next-IsReady : (l : Line) → IsReady w l → IsReady next l
    next-IsReady l ((product, active), (x, there), positive) = (
      (
        product,
        ap active_product (laws.product-insert_item _ _ _ _ ∙ write.products l.product_id) ∙ active,
      ),
      elim (Bool-cases (line.product_id == l.product_id)) [
        | inl same ↦ (new, next-stock l.product_id ∙ rw same refl)
        | inr other ↦ (x, next-stock l.product_id ∙ rw other there)
      ],
      positive,
    )

    -- The lines after a round are the lines from its row on.
    next-after :
        (p : Uuid)
        → then_row (e.stock_item next.rows p) (after (timed next.now rest) p)
          ≡ then_row (e.stock_item w.rows p) (after (timed w.now (line ∷ rest)) p)
    unfolding after
    next-after p = elim (Bool-cases (line.product_id == p)) [
      | inl same ↦
          let mine : e.stock_item w.rows p ≡ some s =
            ap (e.stock_item w.rows) (sym ((==_iff line.product_id p).0 same)) ∙ row in
          rw (mine, next-stock p, same, write.clock, made) refl
      | inr other ↦ elim (Option-cases (e.stock_item w.rows p)) [
        | inl gone ↦ rw (gone, next-stock p, other, gone) refl
        | inr (x, there) ↦ rw (there, next-stock p, other, there, write.clock) refl
      ]
    ]

    here : (p : Uuid) → (line.product_id == p) ≡ true → e.stock_item next.rows p ≡ some new
    here p same = next-stock p ∙ rw same refl

    next-there :
        (p : Uuid)
        → (e.stock_item w.rows p ≢ none → e.stock_item next.rows p ≢ none)
          × (e.stock_item next.rows p ≢ none → e.stock_item w.rows p ≢ none)
    next-there p = elim (Bool-cases (line.product_id == p)) [
      | inl same ↦
          let mine : e.stock_item w.rows p ≡ some s =
            ap (e.stock_item w.rows) (sym ((==_iff line.product_id p).0 same)) ∙ row in
          (
            λ _ gone. none-ne-some (sym gone ∙ here p same),
            λ _ gone. none-ne-some (sym gone ∙ mine),
          )
      | inr other ↦ rw (next-stock p, other) (λ h. h, λ h. h)
    ]

    -- The round and the rest, from what the rest decides.
    next-Decides : (out : Result ℤ × World e) → Decides rest next out → Decides (line ∷ rest) w out
    next-Decides out (inl (total, returned, rows, takes, still)) = inl (
      total,
      returned,
      λ p. rows p ∙ next-after p,
      λ p there refused. takes p ((next-there p).0 there) (next-after p ∙ refused),
      λ l h. still l (next-IsReady l h),
    )
    next-Decides out (inr (x, raised, p, there, refused)) =
        inr (x, raised, p, (next-there p).1 there, sym (next-after p) ∙ refused)

  -- Where each line is ready, the loop of `place_order` does to the stock what the lines do one
  -- after the other: it returns and leaves their rows, or it raises, and then they cannot all be
  -- reserved.
  pub place_lines-Decides :
      (lines : List Line) (total : ℤ) (w : World e)
      → All (IsReady w) lines
      → Decides lines w (place_lines id lines total w)
  unfolding place_lines get_product create_item after
  place_lines-Decides [] total w ready = inl (
    total,
    refl,
    λ p. then_row-some (e.stock_item w.rows p),
    λ p there gone. there (then_row-some (e.stock_item w.rows p) ∙ gone),
    λ l h. h,
  )
  place_lines-Decides (line ∷ rest) total w (((product, active), (s, row), positive), ready) =
      elim (reserve_stock-reserve_row laws line.product_id line.quantity w s product row
        (active-there (e.product w.rows line.product_id) product active)) [
          | inl (new, made, saves) ↦
              let w1 : World e = (reserve_stock line.product_id line.quantity w).1 in
              let w2 : World e = next line rest product.price w w1 s new row made saves.write in
              let sum : ℤ = total +ℤ product.price *ℤ pos line.quantity in
              let still = next-IsReady line rest product.price w w1 s new row made saves.write in
              rw (active, saves.returned, item_fits w.now line.quantity s new positive made)
                (next-Decides line rest product.price w w1 s new row made saves.write
                  (place_lines id rest sum w2)
                  (place_lines-Decides rest sum w2
                    (All-map (IsReady w) (IsReady w2) rest still ready)))
          | inr (refused, x, raised, same) ↦
              rw (active, raised)
                (inr (
                  x,
                  refl,
                  line.product_id,
                  (λ gone. none-ne-some (sym gone ∙ row)),
                  rw (row, ==_refl line.product_id, refused) refl,
                ))
        ]

-- ===== src/Orders/Concurrent/Sequential.antt =====
-- What requests did at the same time, the loop of `place_order` does for one after the other.
use orbit_commerce_platform.Orders.Concurrent.Serial.{commits_serialize}
use orbit_commerce_platform.Orders.Concurrent.Oversell.{Reach-present}
use mathlib.Core.Path.{subst}
use orbit_commerce_platform.Common.Exceptions.{ok, err, Result}
use orbit_commerce_platform.Platform.Exec.{World}
use orbit_commerce_platform.Orders.Services.{Line, place_lines}
use orbit_commerce_platform.Orders.Concurrent.Frames.{then_row-after}
use orbit_commerce_platform.Platform.Env.{Env, IsDatabase}
use orbit_commerce_platform.Orders.Concurrent.Lines.{
  timed, IsReady, place_lines-Decides, row_after, All-map, then_row-some,
}
use orbit_commerce_platform.Inventory.StockItem.{StockItem, available_quantity}
use orbit_commerce_platform.Catalog.Models.{Time, Uuid}
use orbit_commerce_platform.Inventory.Services.{stock_fits, count_fits}
use orbit_commerce_platform.Orders.Concurrent.Isolation.{
  after, all_lines, then_row, all_lines-append,
}
use orbit_commerce_platform.Orders.Concurrent.{reserve_row, Commit, Reserved, System, Reach}
use orbit_commerce_platform.Prelude.{
  ◌≡◌, ◌≢◌, ◌∷◌, ◌++◌, ◌==◌, ◌∙◌, [], some, Option, List, none, ap, none-ne-some, ℕ, sym, refl,
  append_assoc, arith, map, Bool-cases, inl, inr, All, pos, ℤ, append-nil, Option-cases,
}

-- The same units are on hand and reserved; when the row was last written may differ.
abbrev pub SameCounts : Option StockItem → Option StockItem → Type 0
SameCounts none none = Unit
SameCounts none (some b) = ⊥
SameCounts (some a) none = ⊥
SameCounts (some a) (some b) =
    (a.quantity ≡ b.quantity) × (a.reserved_quantity ≡ b.reserved_quantity)

reserve_row-SameCounts :
    (now now' q : ℕ) (a b : StockItem)
    → SameCounts (some a) (some b)
    → SameCounts (reserve_row now q a) (reserve_row now' q b)
unfolding reserve_row stock_fits count_fits available_quantity
reserve_row-SameCounts now now' q a b same = ground arith

after-SameCounts :
    (now : Time) (ds : List Reserved) (p : Uuid) (a b : Option StockItem)
    → SameCounts a b
    → SameCounts (then_row a (after (timed now (map (λ d. d.line) ds)) p)) (then_row b (after ds p))
unfolding after
after-SameCounts now ds p none none same = tt
after-SameCounts now ds p none (some b) same = elim same [ ]
after-SameCounts now [] p (some a) none same = elim same [ ]
after-SameCounts now (d ∷ ds) p (some a) none same = elim same [ ]
after-SameCounts now [] p (some a) (some b) same = same
after-SameCounts now (d ∷ ds) p (some a) (some b) same =
    elim (Bool-cases (d.line.product_id == p)) [
      | inl here ↦ rw here (
          after-SameCounts now ds p (reserve_row now d.line.quantity a)
            (reserve_row d.now d.line.quantity b)
            (reserve_row-SameCounts now d.now d.line.quantity a b same))
      | inr other ↦ rw other (after-SameCounts now ds p (some a) (some b) same)
    ]

SameCounts-none : (a b : Option StockItem) → SameCounts a b → a ≡ none → b ≡ none
SameCounts-none none none same h = refl
SameCounts-none none (some b) same h = elim same [ ]
SameCounts-none (some a) none same h = elim same [ ]
SameCounts-none (some a) (some b) same h = absurd (none-ne-some (sym h))

SameCounts-sym : (a b : Option StockItem) → SameCounts a b → SameCounts b a
SameCounts-sym none none same = tt
SameCounts-sym none (some b) same = elim same [ ]
SameCounts-sym (some a) none same = elim same [ ]
SameCounts-sym (some a) (some b) (on_hand, held) = (sym on_hand, sym held)

all_lines-++ : (cs ds : List Commit) → all_lines (cs ++ ds) ≡ all_lines cs ++ all_lines ds
all_lines-++ [] ds = refl
all_lines-++ (c ∷ cs) ds =
    ap (λ l. c.lines ++ l) (all_lines-++ cs ds)
    ∙ sym (append_assoc c.lines (all_lines cs) (all_lines ds))

all_lines-one :
    (p : Uuid) (first : Option StockItem) (cs : List Commit) (c : Commit)
    → then_row first (after (all_lines (cs ++ c ∷ [])) p)
      ≡ then_row (then_row first (after (all_lines cs) p)) (after c.lines p)
all_lines-one p first cs c =
    ap (λ l. then_row first (after l p)) (all_lines-append cs c)
    ∙ then_row-after first (all_lines cs) c.lines p

-- The rest goes on if a placement returned.
abbrev pub if_returned : {e : Env} → Result ℤ → Option (World e) → Option (World e)
if_returned (ok total) rest = rest
if_returned (err x) rest = none

-- The placements one after the other, each by the loop of `place_order` for the order `key` of its
-- request; `none` if one of them raises.
unfoldable pub place_each :
    {e : Env} → (ℕ → Uuid) → (ℕ → List Line) → List Commit → World e → Option (World e)
place_each key plan [] w = some w
place_each key plan (c ∷ cs) w =
    let out = place_lines (key c.request) (plan c.request) (pos 0) w in
    let rest = place_each key plan cs out.1 in if_returned out.0 rest

module _ {e : Env} (laws : IsDatabase e) (key : ℕ → Uuid) (plan : ℕ → List Line)
    (rows : Uuid → Option StockItem) where
  abbrev Agree : List Commit → World e → Type 0
  Agree cs w =
      (p : Uuid) → SameCounts (e.stock_item w.rows p) (then_row (rows p) (after (all_lines cs) p))

  -- No row of the first ones is refused by the placements `cs`.
  abbrev Takes : List Commit → Type 0
  Takes cs = (p : Uuid) → rows p ≢ none → then_row (rows p) (after (all_lines cs) p) ≢ none

  Takes-prefix : (cs ds : List Commit) → Takes (cs ++ ds) → Takes cs
  Takes-prefix cs ds takes p there refused = takes p there (
      ap (λ l. then_row (rows p) (after l p)) (all_lines-++ cs ds)
      ∙ then_row-after (rows p) (all_lines cs) (all_lines ds) p
      ∙ rw refused refl)

  one_more :
      (cs : List Commit) (c : Commit) (w : World e)
      → Agree cs w
      → Takes (cs ++ c ∷ [])
      → map (λ d. d.line) c.lines ≡ plan c.request
      → All (IsReady w) (plan c.request)
      → let out = place_lines (key c.request) (plan c.request) (pos 0) w in
        (total : ℤ) × (out.0 ≡ ok total)
        × Agree (cs ++ c ∷ []) out.1
        × ((l : Line) → IsReady w l → IsReady out.1 l)
  one_more cs c w agree takes whole ready =
      elim (place_lines-Decides laws (key c.request) (plan c.request) (pos 0) w ready) [
        | inl (total, returned, left, fits, still) ↦ (
          total,
          returned,
          λ p.
              subst (λ r. SameCounts r (then_row (rows p) (after (all_lines (cs ++ c ∷ [])) p)))
                (sym (left p)) (agreed p),
          still,
        )
        | inr (x, raised, p, there, refused) ↦ absurd (
            takes p
              (λ gone. there (
                SameCounts-none _ (e.stock_item w.rows p) (SameCounts-sym _ _ (agree p))
                  (rw gone refl)))
              (SameCounts-none _ _ (agreed p) refused))
      ]
    where
      agreed :
          (p : Uuid)
          → SameCounts
              (row_after w (plan c.request) p)
              (then_row (rows p) (after (all_lines (cs ++ c ∷ [])) p))
      agreed p =
          subst
            (λ ls.
              SameCounts (row_after w ls p)
                (then_row (rows p) (after (all_lines (cs ++ c ∷ [])) p)))
            whole
            (subst (λ r. SameCounts (row_after w (map (λ d. d.line) c.lines) p) r)
              (sym (all_lines-one p (rows p) cs c))
              (after-SameCounts w.now c.lines p (e.stock_item w.rows p) _ (agree p)))

  each :
      (cs ds : List Commit) (w : World e)
      → Agree cs w
      → Takes (cs ++ ds)
      → All (λ c. map (λ d. d.line) c.lines ≡ plan c.request) ds
      → ((i : ℕ) → All (IsReady w) (plan i))
      → (w' : World e) × (place_each key plan ds w ≡ some w') × Agree (cs ++ ds) w'
  unfolding place_each
  each cs [] w agree takes whole ready =
      (w, refl, subst (λ l. Agree l w) (sym (append-nil cs)) agree)
  each cs (c ∷ ds) w agree takes (this, whole) ready =
      let all : (cs ++ c ∷ []) ++ ds ≡ cs ++ c ∷ ds = append_assoc cs (c ∷ []) ds in
      let takes' : Takes ((cs ++ c ∷ []) ++ ds) = subst Takes (sym all) takes in
      let (total, returned, agree', still) =
        one_more cs c w agree (Takes-prefix (cs ++ c ∷ []) ds takes') this (ready c.request) in
      let w1 : World e = (place_lines (key c.request) (plan c.request) (pos 0) w).1 in
      let (w', ran, end) =
        each (cs ++ c ∷ []) ds w1 agree' takes' whole
          (λ i. All-map (IsReady w) (IsReady w1) (plan i) still (ready i)) in
      (
        w',
        ap (λ r. if_returned r (place_each key plan ds w1)) returned ∙ ran,
        subst (λ l. Agree l w') all end,
      )

  -- However requests that place orders interleave, and whichever fail: the placements that
  -- committed, made one after the other in the order of their commits by the loop of `place_order`,
  -- all return, and leave every product with the units on hand and reserved that the requests left.
  -- The database is any that holds these counters at first, and in which all lines are ready.
  pub commits_as_place_lines :
      (n : ℕ) (s : System) (w : World e)
      → Reach n rows plan s
      → ((p : Uuid) → SameCounts (e.stock_item w.rows p) (rows p))
      → ((i : ℕ) → All (IsReady w) (plan i))
      → (w' : World e) × (place_each key plan s.history w ≡ some w')
        × ((p : Uuid) → SameCounts (e.stock_item w'.rows p) (s.rows p))
  unfolding after
  commits_as_place_lines n s w r same ready =
      let (serial, whole) = commits_serialize n rows plan s r in
      let takes : Takes s.history = λ p there gone. present p there (serial p ∙ gone) in
      let (w', ran, end) =
        each [] s.history w
          (λ p. subst (SameCounts (e.stock_item w.rows p)) (then_row-some (rows p)) (same p)) takes
          whole ready in
      (w', ran, λ p. subst (SameCounts (e.stock_item w'.rows p)) (sym (serial p)) (end p))
    where
      present : (p : Uuid) → rows p ≢ none → s.rows p ≢ none
      present p there gone = elim (Option-cases (rows p)) [
        | inl none_there ↦ there none_there
        | inr (first, found) ↦
            let (now, here) = Reach-present p first found r in none-ne-some (sym gone ∙ here)
      ]

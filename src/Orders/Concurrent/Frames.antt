-- ===== src/Orders/Concurrent/Frames.antt =====
-- What the steps of a request leave of its copies and its locks.
use mathlib.Core.List.{map-append}
use orbit_commerce_platform.Orders.Concurrent.Isolation.{Good, after-append, after, then_row}
use orbit_commerce_platform.Orders.Services.{Line}
use orbit_commerce_platform.Inventory.StockItem.{StockItem}
use orbit_commerce_platform.Platform.Memory.{update}
use orbit_commerce_platform.Catalog.Models.{Uuid, Time}
use orbit_commerce_platform.Orders.Concurrent.{System, Reserved, running, reserve_row, release}
use orbit_commerce_platform.Prelude.{
  ℕ, Option, List, ◌∷◌, ◌++◌, ◌≡◌, ◌==◌, ◌∙◌, refl, sym, none, some, ap, false, Bool-cases, inl,
  none-ne-some, ==_iff, [], inr, append_assoc, All, map,
}

pub All-append_one :
    {A : Type 0} (P : A → Type 0) (xs : List A) (x : A) → All P xs → P x → All P (xs ++ x ∷ [])
All-append_one P [] x h last = (last, tt)
All-append_one P (y ∷ ys) x h last = (h.0, All-append_one P ys x h.1 last)

pub then_row-after :
    (start : Option StockItem) (ds es : List Reserved) (p : Uuid)
    → then_row start (after (ds ++ es) p) ≡ then_row (then_row start (after ds p)) (after es p)
then_row-after none ds es p = refl
then_row-after (some r) ds es p = after-append ds es p r

-- A lock that is taken.
pub lock-frame :
    (p q : Uuid) (i j : ℕ) (owner : Uuid → Option ℕ)
    → owner p ≡ none
    → owner q ≡ some j
    → update p (some i) owner q ≡ some j
lock-frame p q i j owner free held = elim (Bool-cases (p == q)) [
  | inl same ↦ absurd (none-ne-some (sym free ∙ ap owner ((==_iff p q).0 same) ∙ held))
  | inr ne ↦ rw ne held
]

-- Locks of others that stay when a transaction ends.
pub release-frame :
    (i j : ℕ) (owner : Uuid → Option ℕ) (p : Uuid)
    → (i == j) ≡ false
    → owner p ≡ some j
    → release i owner p ≡ some j
release-frame i j owner p ne held = rw (held, ne)

module _ (s : System) (i : ℕ) (done : List Reserved) (line : Line) (rest : List Line)
    (mine : Uuid → Option StockItem) (plan : List Line) where
  pub locked-Good :
      (row : StockItem)
      → mine line.product_id ≡ none
      → s.rows line.product_id ≡ some row
      → Good s.rows s.owner i plan (running done (line ∷ rest) mine)
      → Good s.rows
          (update line.product_id (some i) s.owner)
          i
          plan
          (running done (line ∷ rest) (update line.product_id (some row) mine))
  locked-Good row new there (iso, lines) = (
    record {
      copied = λ p x held. elim (Bool-cases (line.product_id == p)) [
        | inl same ↦
            let here : line.product_id ≡ p = (==_iff line.product_id p).0 same in
            (
              rw same refl,
              (
                row,
                ap s.rows (sym here) ∙ there,
                iso.other p row (ap mine (sym here) ∙ new) ∙ (rw same at held),
              ),
            )
        | inr ne ↦ let (locked, copy) = iso.copied p x (rw ne at held) in (rw ne locked, copy)
      ];
      other = λ p x free. elim (Bool-cases (line.product_id == p)) [
        | inl same ↦ absurd (none-ne-some (sym (rw same at free)))
        | inr ne ↦ iso.other p x (rw ne at free)
      ];
    },
    lines,
  )

  pub reserved-Good :
      (now : Time) (row new : StockItem)
      → mine line.product_id ≡ some row
      → reserve_row now line.quantity row ≡ some new
      → Good s.rows s.owner i plan (running done (line ∷ rest) mine)
      → Good s.rows s.owner i plan (
          running
            (done ++ record { now = now; line = line } ∷ [])
            rest
            (update line.product_id (some new) mine))
  unfolding after
  reserved-Good now row new held made (iso, lines) =
      let d : Reserved = record { now = now; line = line } in
      (
        record {
          copied = λ p x copy. elim (Bool-cases (line.product_id == p)) [
            | inl same ↦
                let here : line.product_id ≡ p = (==_iff line.product_id p).0 same in
                let (locked, (r, there, run)) = iso.copied p row (ap mine (sym here) ∙ held) in
                (
                  locked,
                  (
                    r,
                    there,
                    after-append done (d ∷ []) p r ∙ rw (run, after, same, made) (rw same at copy),
                  ),
                )
            | inr ne ↦
                let (locked, (r, there, run)) = iso.copied p x (rw ne at copy) in
                (locked, (r, there, after-append done (d ∷ []) p r ∙ rw (run, after, ne)))
          ];
          other = λ p x free. elim (Bool-cases (line.product_id == p)) [
            | inl same ↦ absurd (none-ne-some (sym (rw same at free)))
            | inr ne ↦
                after-append done (d ∷ []) p x ∙ rw (iso.other p x (rw ne at free), after, ne)
          ];
        },
        rw (map-append) (append_assoc (map (λ e. e.line) done) (line ∷ []) rest ∙ lines),
      )

-- ===== src/Orders/Api/Validation.antt =====
-- The contract of the input serializers of orders/serializers.py.
use mathlib.Core.Path.{subst}
use orbit_commerce_platform.Catalog.Models.{Uuid, Product}
use orbit_commerce_platform.Platform.Env.{Env}
use orbit_commerce_platform.Orders.Api.{
  validate_line, validate_items, validate_lines, InputLine, add_line,
}
use orbit_commerce_platform.Orders.Services.{Line, active_product}
use orbit_commerce_platform.Prelude.{
  ◌≢◌, ◌↔◌, ◌≡◌, ◌<◌, ◌∷◌, List, Option, some, All, Option-cases, leb, ℤ, [], pos, map, true,
  none-ne-some, Bool-cases, inl, refl, inr, none, arith, some_injective, negsuc,
}

-- What validation let through is a line with at least one unit of an active product.
abbrev pub ValidLine : (e : Env) → e.Rows → Line → Type 0
ValidLine e rows line =
    (0 < line.quantity)
    × ((p : Product) × (active_product (e.product rows line.product_id) ≡ some p))

abbrev pub as_input : Line → InputLine
as_input line = record { product_id = line.product_id; quantity = pos line.quantity }

quantity_sound :
    (e : Env) (rows : e.Rows) (k : Uuid) (q : ℤ) (p : Product) (line : Line)
    → active_product (e.product rows k) ≡ some p
    → validate_line (e.product rows k) (record { product_id = k; quantity = q }) ≡ some line
    → ValidLine e rows line × (record { product_id = k; quantity = q } ≡ as_input line)
unfolding validate_line
quantity_sound e rows k (pos n) p line found h = elim (Bool-cases (leb 1 n)) [
  | inl good ↦
      subst (λ l. ValidLine e rows l × (record { product_id = k; quantity = pos n } ≡ as_input l))
        (some_injective (rw (validate_line, found, good) at h)) ((ground arith, (p, found)), refl)
  | inr bad ↦ absurd (none-ne-some (rw (validate_line, found, bad) at h))
]
quantity_sound e rows k (negsuc n) p line found h =
    absurd (none-ne-some (rw (validate_line, found) at h))

validate_line_sound :
    (e : Env) (rows : e.Rows) (input : InputLine) (line : Line)
    → validate_line (e.product rows input.product_id) input ≡ some line
    → ValidLine e rows line × (input ≡ as_input line)
unfolding validate_line
validate_line_sound e rows input line h =
    elim (Option-cases (active_product (e.product rows input.product_id))) [
      | inl missing ↦ absurd (none-ne-some (rw (validate_line, missing) at h))
      | inr (p, found) ↦ quantity_sound e rows input.product_id input.quantity p line found h
    ]

validate_line_complete :
    (e : Env) (rows : e.Rows) (line : Line)
    → ValidLine e rows line
    → validate_line (e.product rows line.product_id) (as_input line) ≡ some line
unfolding validate_line
validate_line_complete e rows line (positive, (p, found)) =
    let fits : leb 1 line.quantity ≡ true = ground arith in rw (validate_line, found, fits)

validate_lines_sound :
    (e : Env) (rows : e.Rows) (input : List InputLine) (lines : List Line)
    → validate_lines e rows input ≡ some lines
    → All (ValidLine e rows) lines × (input ≡ map as_input lines)
unfolding validate_lines
validate_lines_sound e rows [] lines h =
    subst (λ l. All (ValidLine e rows) l × ([] ≡ map as_input l)) (some_injective h) (tt, refl)
validate_lines_sound e rows (i ∷ rest) lines h =
    elim (Option-cases (validate_line (e.product rows i.product_id) i)) [
      | inl bad ↦ absurd (none-ne-some (rw (validate_lines, bad) at h))
      | inr (line, good) ↦ elim (Option-cases (validate_lines e rows rest)) [
        | inl bad ↦ absurd (none-ne-some (rw (validate_lines, good, bad) at h))
        | inr (ls, goods) ↦
            let (valid, same) = validate_line_sound e rows i line good in
            let (valids, sames) = validate_lines_sound e rows rest ls goods in
            subst (λ l. All (ValidLine e rows) l × (i ∷ rest ≡ map as_input l))
              (some_injective (rw (validate_lines, good, goods) at h)) ((valid, valids), cc)
      ]
    ]

validate_lines_complete :
    (e : Env) (rows : e.Rows) (lines : List Line)
    → All (ValidLine e rows) lines
    → validate_lines e rows (map as_input lines) ≡ some lines
unfolding validate_lines add_line
validate_lines_complete e rows [] h = refl
validate_lines_complete e rows (line ∷ rest) (h, hs) =
    rw (validate_line_complete e rows line h, validate_lines_complete e rows rest hs)

validate_items-some :
    (found : Option (List Line)) (lines : List Line)
    → validate_items found ≡ some lines
    → (found ≡ some lines) × (lines ≢ [])
unfolding validate_items
validate_items-some none lines h = absurd (none-ne-some h)
validate_items-some (some []) lines h = absurd (none-ne-some h)
validate_items-some (some (l ∷ ls)) lines h = (h, λ empty. cc)

validate_items_nonempty :
    (lines : List Line) → lines ≢ [] → validate_items (some lines) ≡ some lines
unfolding validate_items
validate_items_nonempty [] ne = absurd (ne refl)
validate_items_nonempty (l ∷ ls) ne = refl

-- Validation accepts the inputs that are at least one line, each of one or more units of an
-- active product, and nothing else, and hands on what the input says.
pub validate_exact :
    (e : Env) (rows : e.Rows) (input : List InputLine) (lines : List Line)
    → (validate_items (validate_lines e rows input) ≡ some lines)
      ↔ ((lines ≢ []) × (All (ValidLine e rows) lines × (input ≡ map as_input lines)))
validate_exact e rows input lines = (
  λ h.
      let (found, ne) = validate_items-some (validate_lines e rows input) lines h in
      (ne, validate_lines_sound e rows input lines found),
  λ (ne, (valid, same)).
      rw (same, validate_lines_complete e rows lines valid) (validate_items_nonempty lines ne),
)

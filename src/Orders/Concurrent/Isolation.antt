-- ===== src/Orders/Concurrent/Isolation.antt =====
-- What holds of requests that place orders at the same time, between any two steps.
use mathlib.Core.Path.{subst}
use orbit_commerce_platform.Platform.Memory.{update}
use orbit_commerce_platform.Orders.Services.{Line}
use orbit_commerce_platform.Orders.Concurrent.{
  Reserved, Commit, Request, System, running, finished, aborted, reserve_row,
}
use orbit_commerce_platform.Catalog.Models.{Uuid}
use orbit_commerce_platform.Inventory.StockItem.{StockItem}
use orbit_commerce_platform.Prelude.{
  ℕ, Option, List, ◌∷◌, ◌++◌, ◌≡◌, ◌==◌, ◌∙◌, refl, sym, none, some, [], append-nil, All, map,
  false, Bool-cases, if◌then◌else◌, ap, inl, append_assoc, Option-cases, ==_iff, inr,
}

abbrev pub then_row : Option StockItem → (StockItem → Option StockItem) → Option StockItem
then_row none f = none
then_row (some s) f = f s

-- The row of a product after the lines, one after the other.
unfoldable pub after : List Reserved → Uuid → StockItem → Option StockItem
after [] p s = some s
after (d ∷ ds) p s =
    if d.line.product_id == p
    then then_row (reserve_row d.now d.line.quantity s) (after ds p)
    else after ds p s

-- All lines of the commits, in the order of the commits.
abbrev pub all_lines : List Commit → List Reserved
all_lines [] = []
all_lines (c ∷ cs) = c.lines ++ all_lines cs

pub after-append :
    (ds es : List Reserved) (p : Uuid) (s : StockItem)
    → after (ds ++ es) p s ≡ then_row (after ds p s) (after es p)
unfolding after
after-append [] es p s = refl
after-append (d ∷ ds) es p s = elim (Bool-cases (d.line.product_id == p)) [
  | inl here ↦ elim (Option-cases (reserve_row d.now d.line.quantity s)) [
    | inl refused ↦ rw (here, refused)
    | inr (x, made) ↦ rw (here, made) (after-append ds es p x)
  ]
  | inr there ↦ rw there (after-append ds es p s)
]

pub all_lines-append :
    (cs : List Commit) (c : Commit) → all_lines (cs ++ c ∷ []) ≡ all_lines cs ++ c.lines
all_lines-append [] c = append-nil c.lines
all_lines-append (d ∷ cs) c =
    ap (λ l. d.lines ++ l) (all_lines-append cs c)
    ∙ sym (append_assoc d.lines (all_lines cs) c.lines)

-- A running request has locked the rows that it has copied, the copy is the committed row with
-- the request's own lines on it, and other rows are none of its lines'.
pub record IsIsolated (rows : Uuid → Option StockItem) (owner : Uuid → Option ℕ) (i : ℕ)
    (done : List Reserved) (mine : Uuid → Option StockItem) : Type 0 where
  pub copied :
      (p : Uuid) (x : StockItem)
      → mine p ≡ some x
      → (owner p ≡ some i) × ((r : StockItem) × (rows p ≡ some r) × (after done p r ≡ some x))
  pub other : (p : Uuid) (x : StockItem) → mine p ≡ none → after done p x ≡ some x

-- A request that runs is isolated, and its lines are those of its plan.
abbrev pub Good : (Uuid → Option StockItem) → (Uuid → Option ℕ) → ℕ → List Line → Request → Type 0
Good rows owner i plan (running done rest mine) =
    IsIsolated rows owner i done mine × (map (λ d. d.line) done ++ rest ≡ plan)
Good rows owner i plan finished = Unit
Good rows owner i plan aborted = Unit

pub record Inv (rows : Uuid → Option StockItem) (plan : ℕ → List Line) (s : System) : Type 0 where
  pub serial : (p : Uuid) → s.rows p ≡ then_row (rows p) (after (all_lines s.history) p)
  pub whole : All (λ c. map (λ d. d.line) c.lines ≡ plan c.request) s.history
  pub good : (i : ℕ) → Good s.rows s.owner i (plan i) (s.request i)

-- A request that another step leaves alone stays isolated if its rows do.
Good-frame :
    (rows rows' : Uuid → Option StockItem) (owner owner' : Uuid → Option ℕ) (j : ℕ)
    (plan : List Line) (r : Request)
    → ((p : Uuid) → owner p ≡ some j → (owner' p ≡ some j) × (rows' p ≡ rows p))
    → Good rows owner j plan r
    → Good rows' owner' j plan r
Good-frame rows rows' owner owner' j plan (running done rest mine) frame (iso, lines) = (
  record {
    copied = λ p x held.
        let (locked, (r, row, same)) = iso.copied p x held in
        ((frame p locked).0, (r, (frame p locked).1 ∙ row, same));
    other = iso.other;
  },
  lines,
)
Good-frame rows rows' owner owner' j plan finished frame h = tt
Good-frame rows rows' owner owner' j plan aborted frame h = tt

-- The same for all requests but `i`, whose new state is given.
pub Good-update :
    (n : ℕ) (s : System) (rows' : Uuid → Option StockItem) (owner' : Uuid → Option ℕ) (i : ℕ)
    (plan : ℕ → List Line) (r : Request)
    → ((j : ℕ) → Good s.rows s.owner j (plan j) (s.request j))
    → ((j : ℕ) (p : Uuid)
        → (i == j) ≡ false
        → s.owner p ≡ some j
        → (owner' p ≡ some j) × (rows' p ≡ s.rows p))
    → Good rows' owner' i (plan i) r
    → (j : ℕ) → Good rows' owner' j (plan j) (update i r s.request j)
Good-update n s rows' owner' i plan r all frame here j = elim (Bool-cases (i == j)) [
  | inl same ↦ rw same (subst (λ k. Good rows' owner' k (plan k) r) ((==_iff i j).0 same) here)
  | inr ne ↦
      rw ne (
        Good-frame s.rows rows' s.owner owner' j (plan j) (s.request j) (λ p. frame j p ne) (all j))
]

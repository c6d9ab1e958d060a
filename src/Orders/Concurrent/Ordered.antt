-- ===== src/Orders/Concurrent/Ordered.antt =====
-- The order in which requests that place orders at the same time lock their rows.
use mathlib.Core.Path.{subst}
use orbit_commerce_platform.Platform.Memory.{update}
use orbit_commerce_platform.Inventory.StockItem.{StockItem}
use orbit_commerce_platform.Orders.Concurrent.{
  Request, System, running, release, Commit, finished, aborted, Step, Event, owned_by, Reserved,
  step, lock, missing, fail, reserve, refuse, commit, write_back, Reach, init, later, start,
}
use orbit_commerce_platform.Catalog.Models.{Uuid}
use orbit_commerce_platform.Orders.Services.{Line}
use orbit_commerce_platform.Prelude.{
  ◌++◌, ℕ, Option, List, [], ◌∷◌, ◌≡◌, ◌≤◌, ◌<◌, ◌==◌, ◌∙◌, refl, some, sym, ap, arith, All, false,
  Bool-cases, inl, inr, ==_iff, none-ne-some, some_injective,
}

-- The products come in ascending order.
abbrev pub Ascending : List Line → Type 0
Ascending [] = Unit
Ascending (line ∷ rest) = All (λ l. line.product_id ≤ l.product_id) rest × Ascending rest

-- The request has a copy of the row.
abbrev pub Holds : Uuid → Request → Type 0
Holds p (running done rest mine) = (x : StockItem) × (mine p ≡ some x)
Holds p finished = ⊥
Holds p aborted = ⊥

-- What the request has locked comes before all that it will lock.
abbrev pub InOrder : Request → Type 0
InOrder (running done rest mine) =
    Ascending rest
    × ((p : Uuid) (x : StockItem) → mine p ≡ some x → All (λ l. p ≤ l.product_id) rest)
InOrder finished = Unit
InOrder aborted = Unit

pub record IsOrdered (n : ℕ) (s : System) : Type 0 where
  pub owned : (p : Uuid) (j : ℕ) → s.owner p ≡ some j → (j < n) × Holds p (s.request j)
  pub in_order : (j : ℕ) → InOrder (s.request j)

module _ (n : ℕ) (s : System) (h : IsOrdered n s) (i : ℕ) where
  -- One request changes, and others keep their locks.
  update-IsOrdered :
      (rows : Uuid → Option StockItem) (owner : Uuid → Option ℕ) (r : Request)
      (history : List Commit)
      → ((p : Uuid) (j : ℕ) → owner p ≡ some j → (i == j) ≡ false → s.owner p ≡ some j)
      → ((p : Uuid) → owner p ≡ some i → (i < n) × Holds p r)
      → InOrder r
      → IsOrdered n
          (record { rows = rows; owner = owner; request = update i r s.request; history = history })
  update-IsOrdered rows owner r history others own order = record {
    owned = λ p j held. elim (Bool-cases (i == j)) [
      | inl same ↦
          let here : i ≡ j = (==_iff i j).0 same in
          rw same (subst (λ k. (k < n) × Holds p r) here (own p (held ∙ ap some (sym here))))
      | inr ne ↦ rw ne (h.owned p j (others p j held ne))
    ];
    in_order = λ j. elim (Bool-cases (i == j)) [
      | inl same ↦ rw same order
      | inr ne ↦ rw ne (h.in_order j)
    ];
  }

  -- A transaction that ends.
  released :
      (p : Uuid) (j : ℕ) → release i s.owner p ≡ some j → (s.owner p ≡ some j) × ((i == j) ≡ false)
  released p j held = elim (Bool-cases (owned_by i (s.owner p))) [
    | inl mine ↦ absurd (none-ne-some (rw mine at held))
    | inr other ↦
        let kept : s.owner p ≡ some j = rw other at held in
        (kept, sym (ap (owned_by i) kept) ∙ other)
  ]

  end-IsOrdered :
      (rows : Uuid → Option StockItem) (r : Request) (history : List Commit)
      → InOrder r
      → IsOrdered n (record {
        rows = rows;
        owner = release i s.owner;
        request = update i r s.request;
        history = history;
      })
  end-IsOrdered rows r history order =
      update-IsOrdered rows (release i s.owner) r history (λ p j held ne. (released p j held).0)
        (λ p held. ground (arith, (released p i held).1)) order

-- A copy that is there stays there when one more is made.
held-update :
    (p q : Uuid) (row : StockItem) (mine : Uuid → Option StockItem)
    → ((x : StockItem) × (mine q ≡ some x))
    → (x : StockItem) × (update p (some row) mine q ≡ some x)
held-update p q row mine (x, held) = elim (Bool-cases (p == q)) [
  | inl same ↦ (row, rw same refl)
  | inr ne ↦ (x, rw ne held)
]

module _ (n : ℕ) (s : System) (h : IsOrdered n s) where
  locked_before :
      (i p q j : ℕ) → update p (some i) s.owner q ≡ some j → (i == j) ≡ false → s.owner q ≡ some j
  locked_before i p q j held ne = elim (Bool-cases (p == q)) [
    | inl same ↦ ground (arith, some_injective (rw same at held))
    | inr other ↦ rw other at held
  ]

  locks_row :
      (i : ℕ) (done : List Reserved) (rest : List Line) (p q : Uuid) (row : StockItem)
      (mine : Uuid → Option StockItem)
      → update p (some i) s.owner q ≡ some i
      → (s.owner q ≡ some i → (x : StockItem) × (mine q ≡ some x))
      → (x : StockItem) × (update p (some row) mine q ≡ some x)
  locks_row i done rest p q row mine own before = elim (Bool-cases (p == q)) [
    | inl same ↦ (row, rw same refl)
    | inr ne ↦ held-update p q row mine (before (rw ne at own))
  ]

  at_lock :
      (i : ℕ) (done : List Reserved) (line : Line) (rest : List Line)
      (mine : Uuid → Option StockItem) (row : StockItem)
      → InOrder (running done (line ∷ rest) mine)
      → InOrder (running done (line ∷ rest) (update line.product_id (some row) mine))
  at_lock i done line rest mine row (order, held) = (
    order,
    λ p x copy. elim (Bool-cases (line.product_id == p)) [
      | inl same ↦
          subst (λ q. All (λ l. q ≤ l.product_id) (line ∷ rest)) ((==_iff line.product_id p).0 same)
            (omega arith, order.0)
      | inr ne ↦ held p x (rw ne at copy)
    ],
  )

  at_reserve :
      (done : List Reserved) (d : Reserved) (line : Line) (rest : List Line)
      (mine : Uuid → Option StockItem) (new : StockItem)
      → InOrder (running done (line ∷ rest) mine)
      → InOrder (running (done ++ d ∷ []) rest (update line.product_id (some new) mine))
  at_reserve done d line rest mine new (order, held) = (
    order.1,
    λ p x copy. elim (Bool-cases (line.product_id == p)) [
      | inl same ↦
          subst (λ q. All (λ l. q ≤ l.product_id) rest) ((==_iff line.product_id p).0 same) order.0
      | inr ne ↦ (held p x (rw ne at copy)).1
    ],
  )

  Step-IsOrdered : {t : System} → Step n s t → IsOrdered n t
  Step-IsOrdered (lock i done line rest mine row lt now new free there) =
      update-IsOrdered n s h i s.rows (update line.product_id (some i) s.owner)
        (running done (line ∷ rest) (update line.product_id (some row) mine)) s.history
        (locked_before i line.product_id)
        (λ p own. (
          lt,
          locks_row i done (line ∷ rest) line.product_id p row mine own
              (λ before. subst (Holds p) now (h.owned p i before).1),
        ))
        (at_lock i done line rest mine row (subst InOrder now (h.in_order i)))
  Step-IsOrdered (missing i done line rest mine lt now new free gone) =
      end-IsOrdered n s h i s.rows aborted s.history tt
  Step-IsOrdered (reserve i done line rest mine now row new lt at held made) =
      update-IsOrdered n s h i s.rows s.owner
        (running (done ++ record { now = now; line = line } ∷ []) rest
          (update line.product_id (some new) mine))
        s.history (λ p j held ne. held)
        (λ p own.
          (lt, held-update line.product_id p new mine (subst (Holds p) at (h.owned p i own).1)))
        (at_reserve done (record { now = now; line = line }) line rest mine new
          (subst InOrder at (h.in_order i)))
  Step-IsOrdered (refuse i done line rest mine now row lt at held short) =
      end-IsOrdered n s h i s.rows aborted s.history tt
  Step-IsOrdered (commit i done mine lt at) =
      end-IsOrdered n s h i (λ p. write_back (mine p) (s.rows p)) finished
        (s.history ++ record { request = i; lines = done } ∷ []) tt

  Event-IsOrdered : {t : System} → Event n s t → IsOrdered n t
  Event-IsOrdered (step st) = Step-IsOrdered st
  Event-IsOrdered (fail i done rest mine lt at) = end-IsOrdered n s h i s.rows aborted s.history tt

init-IsOrdered :
    (n : ℕ) (rows : Uuid → Option StockItem) (plan : ℕ → List Line)
    → ((i : ℕ) → Ascending (plan i))
    → IsOrdered n (init rows plan)
init-IsOrdered n rows plan ascending = record {
  owned = λ p j held. absurd (none-ne-some held);
  in_order = λ j. (ascending j, λ p x held. absurd (none-ne-some held));
}

pub Reach-IsOrdered :
    {n : ℕ} {rows : Uuid → Option StockItem} {plan : ℕ → List Line} {s : System}
    → ((i : ℕ) → Ascending (plan i))
    → Reach n rows plan s
    → IsOrdered n s
Reach-IsOrdered {n} {rows} {plan} ascending start = init-IsOrdered n rows plan ascending
Reach-IsOrdered {n} ascending (later {s} r e) = Event-IsOrdered n s (Reach-IsOrdered ascending r) e

-- ===== src/Orders/Concurrent/Serial.antt =====
-- Interleaved placements of orders have the effect of one after the other: the order of their
-- commits.
use orbit_commerce_platform.Orders.Concurrent.Frames.{
  All-append_one, then_row-after, release-frame, lock-frame, locked-Good, reserved-Good,
}
use mathlib.Core.Path.{subst}
use orbit_commerce_platform.Orders.Concurrent.Isolation.{
  Inv, Good, Good-update, IsIsolated, after, then_row, all_lines, all_lines-append,
}
use orbit_commerce_platform.Orders.Services.{Line}
use orbit_commerce_platform.Inventory.StockItem.{StockItem}
use orbit_commerce_platform.Platform.Memory.{update}
use orbit_commerce_platform.Catalog.Models.{Uuid}
use orbit_commerce_platform.Orders.Concurrent.{
  System, Reserved, Step, running, abort, Event, step, lock, write_back, fail, aborted, missing,
  finished, refuse, reserve, release, commit, init, Reach, later, start,
}
use orbit_commerce_platform.Prelude.{
  ℕ, Option, List, ◌∷◌, ◌++◌, ◌≡◌, ◌==◌, ◌∙◌, refl, sym, none, some, ap, arith, false, inl,
  none-ne-some, [], inr, Option-cases, some_injective, append-nil, All, map,
}

module _ (rows : Uuid → Option StockItem) (plan : ℕ → List Line) (n : ℕ) (s : System)
    (inv : Inv rows plan s) where
  others-copy :
      (i j : ℕ) (done : List Reserved) (mine : Uuid → Option StockItem)
      → IsIsolated s.rows s.owner i done mine
      → (p : Uuid) → (i == j) ≡ false
      → s.owner p ≡ some j
      → mine p ≡ none
  others-copy i j done mine iso p ne held = elim (Option-cases (mine p)) [
    | inl free ↦ free
    | inr (x, copy) ↦
        let same : i ≡ j = some_injective (sym (iso.copied p x copy).0 ∙ held) in
        ground (arith, same)
  ]

  abort-Inv : (i : ℕ) → Inv rows plan (abort i s)
  abort-Inv i = record {
    serial = inv.serial;
    whole = inv.whole;
    good =
        Good-update n s s.rows (release i s.owner) i plan aborted inv.good
          (λ j p ne held. (release-frame i j s.owner p ne held, refl)) tt;
  }

  written :
      (i : ℕ) (done : List Reserved) (mine : Uuid → Option StockItem)
      → IsIsolated s.rows s.owner i done mine
      → (p : Uuid) → then_row (s.rows p) (after done p) ≡ write_back (mine p) (s.rows p)
  written i done mine iso p = elim (Option-cases (mine p)) [
    | inl free ↦ elim (Option-cases (s.rows p)) [
      | inl gone ↦ rw (free, gone)
      | inr (r, there) ↦ rw (free, there) (iso.other p r free)
    ]
    | inr (x, copy) ↦ let (locked, (r, there, run)) = iso.copied p x copy in rw (copy, there) run
  ]

  committed-serial :
      (i : ℕ) (done : List Reserved) (mine : Uuid → Option StockItem)
      → IsIsolated s.rows s.owner i done mine
      → (p : Uuid)
      → write_back (mine p) (s.rows p)
        ≡ then_row
            (rows p)
            (after (all_lines (s.history ++ record { request = i; lines = done } ∷ [])) p)
  committed-serial i done mine iso p = sym (
      ap (λ l. then_row (rows p) (after l p))
        (all_lines-append s.history (record { request = i; lines = done }))
      ∙ then_row-after (rows p) (all_lines s.history) done p
      ∙ ap (λ o. then_row o (after done p)) (sym (inv.serial p))
      ∙ written i done mine iso p)

  commit-Inv :
      (i : ℕ) (done : List Reserved) (mine : Uuid → Option StockItem)
      → s.request i ≡ running done [] mine
      → Inv rows plan (record {
        rows = λ p. write_back (mine p) (s.rows p);
        owner = release i s.owner;
        request = update i finished s.request;
        history = s.history ++ record { request = i; lines = done } ∷ [];
      })
  commit-Inv i done mine now =
      let (iso, lines) = subst (Good s.rows s.owner i (plan i)) now (inv.good i) in
      record {
        serial = committed-serial i done mine iso;
        whole =
            All-append_one _ s.history (record { request = i; lines = done }) inv.whole
              (sym (append-nil _) ∙ lines);
        good =
            Good-update n s (λ p. write_back (mine p) (s.rows p)) (release i s.owner) i plan
              finished inv.good
              (λ j p ne held. (
                release-frame i j s.owner p ne held,
                rw (others-copy i j done mine iso p ne held) refl,
              ))
              tt;
      }

  Step-Inv : {t : System} → Step n s t → Inv rows plan t
  Step-Inv (lock i done line rest mine row lt now new free there) = record {
    serial = inv.serial;
    whole = inv.whole;
    good =
        Good-update n s s.rows (update line.product_id (some i) s.owner) i plan _ inv.good
          (λ j p ne held. (lock-frame line.product_id p i j s.owner free held, refl))
          (locked-Good s i done line rest mine (plan i) row new there
            (subst (Good s.rows s.owner i (plan i)) now (inv.good i)));
  }
  Step-Inv (missing i done line rest mine lt now new free gone) = abort-Inv i
  Step-Inv (reserve i done line rest mine now row new lt at held made) = record {
    serial = inv.serial;
    whole = inv.whole;
    good =
        Good-update n s s.rows s.owner i plan _ inv.good (λ j p ne held. (held, refl))
          (reserved-Good s i done line rest mine (plan i) now row new held made
            (subst (Good s.rows s.owner i (plan i)) at (inv.good i)));
  }
  Step-Inv (refuse i done line rest mine now row lt at held short) = abort-Inv i
  Step-Inv (commit i done mine lt at) = commit-Inv i done mine at

  Event-Inv : {t : System} → Event n s t → Inv rows plan t
  Event-Inv (step st) = Step-Inv st
  Event-Inv (fail i done rest mine lt at) = abort-Inv i

init-Inv : (rows : Uuid → Option StockItem) (plan : ℕ → List Line) → Inv rows plan (init rows plan)
unfolding after
init-Inv rows plan = record {
  serial = λ p. elim (Option-cases (rows p)) [ inl gone ↦ rw gone | inr (r, there) ↦ rw there ];
  whole = tt;
  good = λ i.
      (record { copied = λ p x held. absurd (none-ne-some held); other = λ p x free. refl }, refl);
}

pub Reach-Inv :
    {n : ℕ} {rows : Uuid → Option StockItem} {plan : ℕ → List Line} {s : System}
    → Reach n rows plan s
    → Inv rows plan s
Reach-Inv {rows = rows} {plan = plan} start = init-Inv rows plan
Reach-Inv {n} {rows} {plan} (later {s} r e) = Event-Inv rows plan n s (Reach-Inv r) e

-- However the requests interleave, and whichever fail: the committed rows are what the lines of
-- the committed requests make of the first rows, one after the other in the order of the
-- commits, and each of these requests has reserved all lines of its order.
pub commits_serialize :
    (n : ℕ) (rows : Uuid → Option StockItem) (plan : ℕ → List Line) (s : System)
    → Reach n rows plan s
    → ((p : Uuid) → s.rows p ≡ then_row (rows p) (after (all_lines s.history) p))
      × All (λ c. map (λ d. d.line) c.lines ≡ plan c.request) s.history
commits_serialize n rows plan s r = ((Reach-Inv r).serial, (Reach-Inv r).whole)

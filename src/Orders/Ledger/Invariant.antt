-- ===== src/Orders/Ledger/Invariant.antt =====
-- Reservations are exactly the units of the pending orders, and no unit of stock is lost.
use orbit_commerce_platform.Orders.Ledger.Balanced.{
  SomeBalanced, Balanced, Created-Balanced, Balanced-rows,
}
use orbit_commerce_platform.Orders.Transitions.{
  Moved, all_units, mark_order_paid_atomic, no_units, cancel_order_atomic,
}
use orbit_commerce_platform.Orders.Place.{Created, place_order_atomic}
use orbit_commerce_platform.Orders.Counters.{reserved_at, quantity_at}
use orbit_commerce_platform.Orders.Models.{Order, pending, paid, cancelled}
use orbit_commerce_platform.Platform.Post.{Post, SameRows}
use orbit_commerce_platform.Orders.Services.{Line, place_order, mark_order_paid, cancel_order}
use orbit_commerce_platform.Common.Exceptions.{Error, Result, ok, err}
use orbit_commerce_platform.Platform.Exec.{World}
use orbit_commerce_platform.Catalog.Models.{Uuid}
use orbit_commerce_platform.Platform.Env.{Env, IsDatabase}
use orbit_commerce_platform.Orders.Ledger.Balanced.{Moved-Balanced}
use orbit_commerce_platform.Orders.Ledger.Tally.{tally}
use orbit_commerce_platform.Prelude.{
  ℕ, List, ◌≡◌, some, none, ◌+◌, [], ◌∷◌, arith, refl, sym, ◌∙◌, none-ne-some,
}

-- One request, or time passing. An instance is the row that is read for the request; an order is
-- paid only while it is pending, which the code leaves to its callers.
pub data Step {e : Env} (w : World e) : World e → Type 0 where
  place : (id customer : Uuid) (lines : List Line) → Step w (place_order id customer lines w).1
  pay :
      (id : Uuid) (o : Order)
      → e.order w.rows id ≡ some o
      → o.status ≡ pending
      → Step w (mark_order_paid id o w).1
  cancel : (id : Uuid) (o : Order) → e.order w.rows id ≡ some o → Step w (cancel_order id o w).1
  wait : (n : ℕ) → Step w (record w { now = w.now + n })

pub data Reach {e : Env} (w : World e) : World e → Type 0 where
  here : Reach w w
  next : {u v : World e} → Reach w u → Step u v → Reach w v

-- What holds on return or after a raise holds of the world that is left.
Post-cases :
    {e : Env} {A : Type 0} (P : A → World e → Type 0) (E : Error → World e → Type 0)
    (Q : World e → Type 0)
    → ((a : A) (w : World e) → P a w → Q w)
    → ((x : Error) (w : World e) → E x w → Q w)
    → (out : Result A × World e) → Post P E out
    → Q out.1
Post-cases P E Q f g (ok a, w) h = f a w h
Post-cases P E Q f g (err x, w) h = g x w h

module _ {e : Env} (laws : IsDatabase e) (base : Uuid → ℕ) where
  -- Every step keeps the balance, whether its request returns or raises.
  pub Step-SomeBalanced : {w w' : World e} → SomeBalanced base w → Step w w' → SomeBalanced base w'
  Step-SomeBalanced {w} (ids, b) (place id customer lines) =
      Post-cases (Created id customer lines w) (SameRows w) (SomeBalanced base)
        (λ o w' c. (id ∷ ids, Created-Balanced base ids id customer lines w o w' b c))
        (λ x w' same. (ids, Balanced-rows base ids w w' same.0 b)) (place_order id customer lines w)
        (place_order_atomic laws id customer lines w (b.orphans id))
  Step-SomeBalanced {w} (ids, b) (pay id o there was_pending) =
      Post-cases (Moved paid all_units id o w) (SameRows w) (SomeBalanced base)
        (λ o' w' m. (
          ids,
          Moved-Balanced base ids id o w o' w' b there was_pending paid all_units m refl
              (λ n. omega arith) (λ p. rw (m.was.2, m.items id) refl),
        ))
        (λ x w' same. (ids, Balanced-rows base ids w w' same.0 b)) (mark_order_paid id o w)
        (mark_order_paid_atomic laws id o w)
  Step-SomeBalanced {w} (ids, b) (cancel id o there) =
      Post-cases (λ o' w'. (o.status ≡ pending) × Moved cancelled no_units id o w o' w')
        (SameRows w) (SomeBalanced base)
        (λ o' w' m. (
          ids,
          Moved-Balanced base ids id o w o' w' b there m.0 cancelled no_units m.1 refl
              (λ n. omega arith) (λ p. rw m.1.was.2 refl),
        ))
        (λ x w' same. (ids, Balanced-rows base ids w w' same.0 b)) (cancel_order id o w)
        (cancel_order_atomic laws id o w)
  Step-SomeBalanced {w} (ids, b) (wait n) = (ids, Balanced-rows base ids w _ refl b)

  Reach-SomeBalanced : {w w' : World e} → SomeBalanced base w → Reach w w' → SomeBalanced base w'
  Reach-SomeBalanced b here = b
  Reach-SomeBalanced b (next r s) = Step-SomeBalanced (Reach-SomeBalanced b r) s

-- From a database with no orders and nothing reserved, whatever orders are placed, paid while
-- pending, and cancelled, in any order, with requests that fail among them: the reserved units of
-- each product are exactly those of the pending orders, never more than are on hand, and the units
-- on hand and those of the sold orders together are what was on hand at first.
pub stock_is_conserved :
    {e : Env} (laws : IsDatabase e) (w w' : World e)
    → ((j : Uuid) → e.order w.rows j ≡ none)
    → ((j : Uuid) → e.items w.rows j ≡ [])
    → ((p : Uuid) → reserved_at w p ≡ 0)
    → Reach w w'
    → (ids : List Uuid) × Balanced (quantity_at w) ids w'
unfolding tally
stock_is_conserved laws w w' no_orders no_items none_reserved r =
    Reach-SomeBalanced laws (quantity_at w)
      (
        [],
        record {
          distinct = tt;
          listed = λ j o there. absurd (none-ne-some (sym (no_orders j) ∙ there));
          unlisted = λ j gone. tt;
          orphans = λ j gone. no_items j;
          reserved = none_reserved;
          balance = λ p. omega arith;
          covered = λ p. omega (arith, none_reserved p);
        },
      )
      r

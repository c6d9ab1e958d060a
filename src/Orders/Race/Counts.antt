-- ===== src/Orders/Race/Counts.antt =====
-- What requests that pay and cancel at the same time do to the stock, all together.
use orbit_commerce_platform.Orders.Services.{mark_order_paid, cancel_order}
use orbit_commerce_platform.Orders.Transitions.{
  Moved, all_units, mark_order_paid_atomic, no_units, cancel_order_atomic,
}
use orbit_commerce_platform.Orders.Models.{Order, paid, pending, cancelled}
use mathlib.Core.Path.{subst}
use orbit_commerce_platform.Platform.Post.{Post, SameRows}
use orbit_commerce_platform.Orders.Counters.{reserved_at, units, quantity_at}
use orbit_commerce_platform.Catalog.Models.{Uuid}
use orbit_commerce_platform.Orders.Race.{
  raises, at_first, later, Action, Race, pays, cancels, act, Step, Reach, loads, waits, returns,
}
use orbit_commerce_platform.Common.Exceptions.{Error, Result, ok, err}
use orbit_commerce_platform.Platform.Exec.{World}
use orbit_commerce_platform.Platform.Env.{Env, IsDatabase}
use orbit_commerce_platform.Prelude.{refl, ◌∙◌, ◌≡◌, ◌+◌, ◌-◌, ◌∷◌, [], ℕ, List, sym, arith, ap}

ok_injective : {A : Type 0} {a b : A} → ok a ≡ ok b → a ≡ b
ok_injective h = cc

err_injective : {A : Type 0} {x y : Error} → ◌≡◌ {A = Result A} (err x) (err y) → x ≡ y
err_injective h = cc

ok-ne-err : {A : Type 0} {a : A} {x : Error} → ok a ≡ err x → ⊥
ok-ne-err h = cc

-- What a call that returned, or raised, tells.
pub Post-ok :
    {e : Env} {A : Type 0} (P : A → World e → Type 0) (E : Error → World e → Type 0)
    (out : Result A × World e) (a : A)
    → out.0 ≡ ok a
    → Post P E out
    → P a out.1
Post-ok P E (ok b, w) a eq h = subst (λ c. P c w) (ok_injective eq) h
Post-ok P E (err x, w) a eq h = absurd (ok-ne-err (sym eq))

pub Post-err :
    {e : Env} {A : Type 0} (P : A → World e → Type 0) (E : Error → World e → Type 0)
    (out : Result A × World e) (x : Error)
    → out.0 ≡ err x
    → Post P E out
    → E x out.1
Post-err P E (err y, w) x eq h = subst (λ c. E c w) (err_injective eq) h
Post-err P E (ok b, w) x eq h = absurd (ok-ne-err eq)

abbrev pub sold_by : Action → ℕ → ℕ
sold_by pays n = n
sold_by cancels n = 0

-- The units of `p` in the orders of the requests, and in those of the requests that paid.
module _ {e : Env} (action : ℕ → Action) (target : ℕ → Uuid) (first : World e) where
  abbrev pub unreserved : Uuid → List ℕ → ℕ
  unreserved p [] = 0
  unreserved p (i ∷ rest) = units p (e.items first.rows (target i)) + unreserved p rest

  abbrev pub sold : Uuid → List ℕ → ℕ
  sold p [] = 0
  sold p (i ∷ rest) = sold_by (action i) (units p (e.items first.rows (target i))) + sold p rest

  pub record Counted (s : Race e) : Type 0 where
    pub reserved : (p : Uuid) → reserved_at s.world p ≡ reserved_at first p - unreserved p s.done
    pub quantity : (p : Uuid) → quantity_at s.world p ≡ quantity_at first p - sold p s.done
    pub items : (j : Uuid) → e.items s.world.rows j ≡ e.items first.rows j

-- What a call that returned has done to the counters of `p`.
record Acted {e : Env} (a : Action) (id : Uuid) (w w' : World e) : Type 0 where
  reserved : (p : Uuid) → reserved_at w' p ≡ reserved_at w p - units p (e.items w.rows id)
  quantity :
      (p : Uuid) → quantity_at w' p ≡ quantity_at w p - sold_by a (units p (e.items w.rows id))
  items : (j : Uuid) → e.items w'.rows j ≡ e.items w.rows j

module _ {e : Env} (laws : IsDatabase e) where
  act-Acted :
      (a : Action) (id : Uuid) (o o' : Order) (w : World e)
      → (act a id o w).0 ≡ ok o'
      → Acted a id w (act a id o w).1
  unfolding act
  act-Acted pays id o o' w returned =
      let m =
        Post-ok (Moved paid all_units id o w) (SameRows w) (mark_order_paid id o w) o' returned
          (mark_order_paid_atomic laws id o w) in
      record { reserved = m.reserved; quantity = m.quantity; items = m.items }
  act-Acted cancels id o o' w returned =
      let m =
        (Post-ok (λ o' w'. (o.status ≡ pending) × Moved cancelled no_units id o w o' w')
          (SameRows w) (cancel_order id o w) o' returned (cancel_order_atomic laws id o w)).1 in
      record { reserved = m.reserved; quantity = m.quantity; items = m.items }

  pub act-SameRows :
      (a : Action) (id : Uuid) (o : Order) (x : Error) (w : World e)
      → (act a id o w).0 ≡ err x
      → (act a id o w).1.rows ≡ w.rows
  unfolding act
  act-SameRows pays id o x w raised =
      (Post-err (Moved paid all_units id o w) (SameRows w) (mark_order_paid id o w) x raised
        (mark_order_paid_atomic laws id o w)).0
  act-SameRows cancels id o x w raised =
      (Post-err (λ o' w'. (o.status ≡ pending) × Moved cancelled no_units id o w o' w') (SameRows w)
        (cancel_order id o w) x raised (cancel_order_atomic laws id o w)).0

  module _ (action : ℕ → Action) (target : ℕ → Uuid) (first : World e) where
    Step-Counted :
        (s : Race e) {t : Race e}
        → Step action target s t
        → Counted action target first s
        → Counted action target first t
    Step-Counted s (loads i o there) c = record {
      reserved = c.reserved;
      quantity = c.quantity;
      items = c.items;
    }
    Step-Counted s (waits n) c = record {
      reserved = c.reserved;
      quantity = c.quantity;
      items = c.items;
    }
    Step-Counted s (raises i o x held raised) c =
        let same = act-SameRows (action i) (target i) o x s.world raised in
        record {
          reserved = λ p. rw same (c.reserved p);
          quantity = λ p. rw same (c.quantity p);
          items = λ j. rw same (c.items j);
        }
    Step-Counted s (returns i o o' held returned) c =
        let a = act-Acted (action i) (target i) o o' s.world returned in
        record {
          reserved =
              λ p. omega (arith, a.reserved p, c.reserved p, ap (units p) (c.items (target i)));
          quantity = λ p. omega (
            arith,
            a.quantity p,
            c.quantity p,
            ap (λ l. sold_by (action i) (units p l)) (c.items (target i)),
          );
          items = λ j. a.items j ∙ c.items j;
        }

    -- Whatever requests pay and cancel at the same time, each with an instance that may be out of
    -- date: every call that returns takes the units of its order off the reservations once more,
    -- and if it pays off the stock on hand, each difference stopping at 0; one that raises takes
    -- none. No order's items change.
    pub race_counts : (s : Race e) → Reach action target first s → Counted action target first s
    race_counts s at_first = record {
      reserved = λ p. omega arith;
      quantity = λ p. omega arith;
      items = λ j. refl;
    }
    race_counts s (later {s = u} r st) = Step-Counted u st (race_counts u r)

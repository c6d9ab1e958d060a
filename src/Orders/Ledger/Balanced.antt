-- ===== src/Orders/Ledger/Balanced.antt =====
-- When the stock and the orders are in balance, and what one change of them keeps of it.
use mathlib.Core.Path.{subst}
use orbit_commerce_platform.Orders.Transitions.{Moved}
use orbit_commerce_platform.Orders.Place.{Created}
use orbit_commerce_platform.Orders.Counters.{reserved_at, quantity_at, units}
use orbit_commerce_platform.Orders.Models.{Order, pending, Status}
use orbit_commerce_platform.Orders.Services.{Line}
use orbit_commerce_platform.Platform.Exec.{World}
use orbit_commerce_platform.Catalog.Models.{Uuid}
use orbit_commerce_platform.Platform.Env.{Env}
use orbit_commerce_platform.Orders.Ledger.Tally.{
  tally, Distinct, held, sold, Listed, Absent, tally-Absent, share, tally-Listed,
}
use orbit_commerce_platform.Prelude.{
  ℕ, List, ◌≡◌, some, none, ◌+◌, [], ◌≤◌, ◌∷◌, Bool, arith, refl, Bool-cases, ◌==◌, false, inl,
  ==_iff, inr, sym, ◌∙◌, none-ne-some, ap,
}

-- `base p` is what was on hand of `p` at first, and `ids` lists the orders. What is reserved is
-- what the pending orders hold; what is on hand and what was sold make up what was there; and no
-- more is reserved than is on hand.
pub record Balanced {e : Env} (base : Uuid → ℕ) (ids : List Uuid) (w : World e) : Type 0 where
  pub distinct : Distinct ids
  pub listed : (j : Uuid) (o : Order) → e.order w.rows j ≡ some o → Listed j ids
  pub unlisted : (j : Uuid) → e.order w.rows j ≡ none → Absent j ids
  pub orphans : (j : Uuid) → e.order w.rows j ≡ none → e.items w.rows j ≡ []
  pub reserved : (p : Uuid) → reserved_at w p ≡ tally held w p ids
  pub balance : (p : Uuid) → quantity_at w p + tally sold w p ids ≡ base p
  pub covered : (p : Uuid) → reserved_at w p ≤ quantity_at w p

abbrev pub SomeBalanced : {e : Env} → (Uuid → ℕ) → World e → Type 0
SomeBalanced base w = (ids : List Uuid) × Balanced base ids w

pub tally-rows :
    {e : Env} (test : Status → Bool) (w w' : World e) (p : Uuid) (ids : List Uuid)
    → w'.rows ≡ w.rows
    → tally test w' p ids ≡ tally test w p ids
unfolding tally
tally-rows test w w' p [] h = refl
tally-rows test w w' p (i ∷ ids) h = rw (h, tally-rows test w w' p ids h)

-- A request that raised has changed nothing of this.
pub Balanced-rows :
    {e : Env} (base : Uuid → ℕ) (ids : List Uuid) (w w' : World e)
    → w'.rows ≡ w.rows
    → Balanced base ids w
    → Balanced base ids w'
Balanced-rows base ids w w' h b = record {
  distinct = b.distinct;
  listed = rw h b.listed;
  unlisted = rw h b.unlisted;
  orphans = rw h b.orphans;
  reserved = λ p. rw (tally-rows held w w' p ids h, h) (b.reserved p);
  balance = λ p. rw (tally-rows sold w w' p ids h, h) (b.balance p);
  covered = rw h b.covered;
}

pub Created-Balanced :
    {e : Env} (base : Uuid → ℕ) (ids : List Uuid) (id customer : Uuid) (lines : List Line)
    (w : World e) (o : Order) (w' : World e)
    → Balanced base ids w
    → Created id customer lines w o w'
    → Balanced base (id ∷ ids) w'
unfolding tally
Created-Balanced {e} base ids id customer lines w o w' b c =
    let absent : Absent id ids = b.unlisted id c.fresh in
    record {
      distinct = (absent, b.distinct);
      listed = λ j o' there. elim (Bool-cases (id == j)) [
        | inl same ↦ inl ((==_iff id j).0 same)
        | inr ne ↦ inr (b.listed j o' (sym (c.orders j ne) ∙ there))
      ];
      unlisted = λ j gone. elim (Bool-cases (id == j)) [
        | inl same ↦
            absurd
              (none-ne-some (sym gone ∙ ap (e.order w'.rows) (sym ((==_iff id j).0 same)) ∙ c.row))
        | inr ne ↦ (ne, b.unlisted j (sym (c.orders j ne) ∙ gone))
      ];
      orphans = λ j gone. elim (Bool-cases (id == j)) [
        | inl same ↦
            absurd
              (none-ne-some (sym gone ∙ ap (e.order w'.rows) (sym ((==_iff id j).0 same)) ∙ c.row))
        | inr ne ↦ c.others j ne ∙ b.orphans j (sym (c.orders j ne) ∙ gone)
      ];
      reserved = λ p.
          rw (c.row, c.status)
            (omega (
              arith,
              c.reserved p,
              c.stored p,
              b.reserved p,
              tally-Absent held w w' p id c.orders c.others ids absent,
            ));
      balance = λ p.
          rw (c.row, c.status)
            (omega (
              arith,
              c.quantity p,
              b.balance p,
              tally-Absent sold w w' p id c.orders c.others ids absent,
            ));
      covered = λ p. omega (arith, c.covered p, b.covered p);
    }

-- A transition of one listed order that was pending: to CANCELLED it gives its units back, and to
-- PAID it takes them off the stock on hand.
module _ {e : Env} (base : Uuid → ℕ) (ids : List Uuid) (id : Uuid) (o : Order) (w : World e)
    (o' : Order) (w' : World e) (b : Balanced base ids w) (there : e.order w.rows id ≡ some o)
    (was_pending : o.status ≡ pending) where
  pub held-share :
      (p : Uuid)
      → share held p (e.order w.rows id) (e.items w.rows id) ≡ units p (e.items w.rows id)
  held-share p = rw (there, was_pending) refl

  pub sold-share : (p : Uuid) → share sold p (e.order w.rows id) (e.items w.rows id) ≡ 0
  sold-share p = rw (there, was_pending) refl

  module _ (to : Status) (taken : ℕ → ℕ) (m : Moved to taken id o w o' w')
      (to_held : held to ≡ false) where
    after_held : (p : Uuid) → share held p (e.order w'.rows id) (e.items w'.rows id) ≡ 0
    after_held p = rw (m.was.2, to_held) refl

    held-tally : (p : Uuid) → tally held w' p ids + units p (e.items w.rows id) ≡ tally held w p ids
    held-tally p = omega (
      arith,
      tally-Listed held w w' p id m.orders (λ j _. m.items j) ids b.distinct (b.listed id o there),
      held-share p,
      after_held p,
    )

    pub Moved-Balanced :
        ((n : ℕ) → taken n ≤ n)
        → ((p : Uuid)
            → share sold p (e.order w'.rows id) (e.items w'.rows id)
              ≡ taken (units p (e.items w.rows id)))
        → Balanced base ids w'
    Moved-Balanced at_most sale = record {
      distinct = b.distinct;
      listed = λ j x row. elim (Bool-cases (id == j)) [
        | inl same ↦ subst (λ k. Listed k ids) ((==_iff id j).0 same) (b.listed id o there)
        | inr ne ↦ b.listed j x (sym (m.orders j ne) ∙ row)
      ];
      unlisted = λ j gone. elim (Bool-cases (id == j)) [
        | inl same ↦
            absurd (
              none-ne-some (sym gone ∙ ap (e.order w'.rows) (sym ((==_iff id j).0 same)) ∙ m.was.2))
        | inr ne ↦ b.unlisted j (sym (m.orders j ne) ∙ gone)
      ];
      orphans = λ j gone. elim (Bool-cases (id == j)) [
        | inl same ↦
            absurd (
              none-ne-some (sym gone ∙ ap (e.order w'.rows) (sym ((==_iff id j).0 same)) ∙ m.was.2))
        | inr ne ↦ m.items j ∙ b.orphans j (sym (m.orders j ne) ∙ gone)
      ];
      reserved = λ p. omega (arith, m.reserved p, b.reserved p, held-tally p);
      balance = λ p. omega (
        arith,
        m.quantity p,
        b.balance p,
        b.reserved p,
        b.covered p,
        held-tally p,
        at_most (units p (e.items w.rows id)),
        sale p,
        sold-share p,
        tally-Listed sold w w' p id m.orders (λ j _. m.items j) ids b.distinct
            (b.listed id o there),
      );
      covered = λ p.
          omega
            (arith, m.reserved p, m.quantity p, b.covered p, at_most (units p (e.items w.rows id)));
    }

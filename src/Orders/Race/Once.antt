-- ===== src/Orders/Race/Once.antt =====
-- Requests of which each loads its instance and acts before the next one begins.
use mathlib.Core.Path.{subst}
use orbit_commerce_platform.Orders.Services.{cancel_order, mark_order_paid}
use orbit_commerce_platform.Platform.Post.{SameRows}
use orbit_commerce_platform.Orders.Transitions.{
  Moved, all_units, no_units, mark_order_paid_atomic, cancel_order_atomic,
}
use orbit_commerce_platform.Orders.Race.Counts.{Post-ok, act-SameRows}
use orbit_commerce_platform.Common.Exceptions.{ok, Error, err}
use orbit_commerce_platform.Platform.Exec.{World}
use orbit_commerce_platform.Catalog.Models.{Uuid}
use orbit_commerce_platform.Platform.Env.{Env, IsDatabase}
use orbit_commerce_platform.Orders.Race.{Action, pays, cancels, act}
use orbit_commerce_platform.Orders.Models.{cancelled, paid, pending, Order}
use orbit_commerce_platform.Prelude.{
  ◌≡◌, ◌≢◌, ◌+◌, ◌∷◌, ◌≤◌, ◌==◌, ◌⊎◌, ◌∙◌, [], Option, ℕ, some, List, if◌then◌else◌, false, none,
  inl, sym, inr, arith, Bool-cases, refl, ==_iff, ap,
}

-- From `w` the requests `done` have returned, the last one first.
pub data Serial {e : Env} (action : ℕ → Action) (target : ℕ → Uuid) (w : World e)
    : World e → List ℕ → Type 0 where
  nothing : Serial action target w w []
  passed :
      {v : World e} {done : List ℕ} (i : ℕ) (o o' : Order)
      → Serial action target w v done
      → e.order v.rows (target i) ≡ some o
      → (act (action i) (target i) o v).0 ≡ ok o'
      → Serial action target w (act (action i) (target i) o v).1 (i ∷ done)
  failed :
      {v : World e} {done : List ℕ} (i : ℕ) (o : Order) (x : Error)
      → Serial action target w v done
      → e.order v.rows (target i) ≡ some o
      → (act (action i) (target i) o v).0 ≡ err x
      → Serial action target w (act (action i) (target i) o v).1 done
  waited :
      {v : World e} {done : List ℕ} (n : ℕ)
      → Serial action target w v done
      → Serial action target w (record v { now = v.now + n }) done

abbrev pub is_cancel : Action → ℕ
is_cancel pays = 0
is_cancel cancels = 1

-- How many of the requests are cancellations of `id`.
abbrev pub cancellations : (ℕ → Action) → (ℕ → Uuid) → Uuid → List ℕ → ℕ
cancellations action target id [] = 0
cancellations action target id (i ∷ rest) =
    (if target i == id then is_cancel (action i) else 0) + cancellations action target id rest

-- The order is there and no longer pending.
abbrev IsSettled : Option Order → Type 0
IsSettled none = ⊥
IsSettled (some o) = o.status ≢ pending

paid-ne-pending : paid ≢ pending
paid-ne-pending h = cc

cancelled-ne-pending : cancelled ≢ pending
cancelled-ne-pending h = cc

Action-cases : (a : Action) → (a ≡ pays) ⊎ (a ≡ cancels)
Action-cases pays = inl refl
Action-cases cancels = inr refl

-- What a call that returned leaves of the order: it is settled, and every other is as it was.
record Settles {e : Env} (id : Uuid) (w w' : World e) : Type 0 where
  settled : IsSettled (e.order w'.rows id)
  others : (j : Uuid) → (id == j) ≡ false → e.order w'.rows j ≡ e.order w.rows j

module _ {e : Env} (laws : IsDatabase e) where
  act-Settles :
      (a : Action) (id : Uuid) (o o' : Order) (w : World e)
      → (act a id o w).0 ≡ ok o'
      → Settles id w (act a id o w).1
  unfolding act
  act-Settles pays id o o' w returned =
      let m =
        Post-ok (Moved paid all_units id o w) (SameRows w) (mark_order_paid id o w) o' returned
          (mark_order_paid_atomic laws id o w) in
      record { settled = subst IsSettled (sym m.was.2) paid-ne-pending; others = m.orders }
  act-Settles cancels id o o' w returned =
      let m =
        (Post-ok (λ o' w'. (o.status ≡ pending) × Moved cancelled no_units id o w o' w')
          (SameRows w) (cancel_order id o w) o' returned (cancel_order_atomic laws id o w)).1 in
      record { settled = subst IsSettled (sym m.was.2) cancelled-ne-pending; others = m.orders }

  -- A cancellation that returned had a pending instance.
  act-pending :
      (id : Uuid) (o o' : Order) (w : World e) → (act cancels id o w).0 ≡ ok o' → o.status ≡ pending
  unfolding act
  act-pending id o o' w returned =
      (Post-ok (λ o' w'. (o.status ≡ pending) × Moved cancelled no_units id o w o' w') (SameRows w)
        (cancel_order id o w) o' returned (cancel_order_atomic laws id o w)).0

  module _ (action : ℕ → Action) (target : ℕ → Uuid) (w : World e) (id : Uuid) where
    -- No cancellation yet, or one, and the order is settled.
    abbrev Once : World e → List ℕ → Type 0
    Once v done =
        (cancellations action target id done ≡ 0)
        ⊎ ((cancellations action target id done ≡ 1) × IsSettled (e.order v.rows id))

    passed-Once :
        (i : ℕ) (o o' : Order) (v : World e) (done : List ℕ)
        → e.order v.rows (target i) ≡ some o
        → (act (action i) (target i) o v).0 ≡ ok o'
        → Once v done
        → Once (act (action i) (target i) o v).1 (i ∷ done)
    passed-Once i o o' v done there ran before =
        let s = act-Settles (action i) (target i) o o' v ran in
        elim (Bool-cases (target i == id)) [
          | inr other ↦ elim before [
            | inl none_yet ↦ inl (rw other (omega (arith, none_yet)))
            | inr (one, settled) ↦
                inr
                  (rw other (omega (arith, one)), subst IsSettled (sym (s.others id other)) settled)
          ]
          | inl same ↦
              let mine : target i ≡ id = (==_iff (target i) id).0 same in
              let now_settled =
                subst (λ j. IsSettled (e.order (act (action i) (target i) o v).1.rows j)) mine
                  s.settled in
              elim (Action-cases (action i)) [
                | inl paying ↦ elim before [
                  | inl none_yet ↦ inl (rw (same, paying) (omega (arith, none_yet)))
                  | inr (one, settled) ↦ inr (rw (same, paying) (omega (arith, one)), now_settled)
                ]
                | inr cancelling ↦ elim before [
                  | inl none_yet ↦
                      inr (rw (same, cancelling) (omega (arith, none_yet)), now_settled)
                  | inr (one, settled) ↦ absurd (
                      subst IsSettled (ap (e.order v.rows) (sym mine) ∙ there) settled (
                        act-pending (target i) o o' v
                          (subst (λ a. (act a (target i) o v).0 ≡ ok o') cancelling ran)))
                ]
              ]
        ]

    Serial-Once : {v : World e} {done : List ℕ} → Serial action target w v done → Once v done
    Serial-Once nothing = inl refl
    Serial-Once (waited n r) = Serial-Once r
    Serial-Once (failed {v} i o x r there threw) =
        let same = act-SameRows laws (action i) (target i) o x v threw in
        elim (Serial-Once r) [
          | inl none_yet ↦ inl none_yet
          | inr (one, settled) ↦ inr (one, rw same settled)
        ]
    Serial-Once (passed {v} i o o' r there ran) = passed-Once i o o' v _ there ran (Serial-Once r)

  -- Where every request loads its instance and acts before the next one begins, at most one
  -- cancellation of an order returns, however many are tried, and whatever is paid among them.
  pub serial_cancels_once :
      (action : ℕ → Action) (target : ℕ → Uuid) (w v : World e) (done : List ℕ) (id : Uuid)
      → Serial action target w v done
      → cancellations action target id done ≤ 1
  serial_cancels_once action target w v done id r = elim (Serial-Once action target w id r) [
    | inl none_yet ↦ omega (arith, none_yet)
    | inr (one, settled) ↦ omega (arith, one)
  ]

-- ===== src/Orders/Api/Laws.antt =====
-- The contract of the order endpoints of orders/views.py.
use orbit_commerce_platform.Orders.Place.{Created, place_order_atomic}
use orbit_commerce_platform.Platform.Post.{Post, SameRows, >>=-Post}
use mathlib.Core.Path.{subst}
use orbit_commerce_platform.Common.Idempotency.Laws.{
  locked, begin_free, begin_locks, complete_replays,
}
use orbit_commerce_platform.Common.Exceptions.{Result, not_found, ok, err, Error}
use orbit_commerce_platform.Platform.Exec.{World, ◌>>=◌, gets, pure}
use orbit_commerce_platform.Orders.Models.{Order}
use orbit_commerce_platform.Common.Idempotency.{
  Cache, IsCache, cache_key, complete, result_ttl_seconds, lock_ttl_seconds, begin, abandon,
}
use orbit_commerce_platform.Catalog.Models.{Uuid, Time}
use orbit_commerce_platform.Orders.Api.{
  Requester, InputLine, Response, create, settle_key, create_begun, pay, cancel, get_object,
  create_order_response, visible, key_in_progress, validate_lines, validate_items, order_body,
  an_order,
}
use orbit_commerce_platform.Platform.Env.{Env, IsDatabase}
use orbit_commerce_platform.Orders.Services.{place_order}
use orbit_commerce_platform.Prelude.{
  ℕ, List, Text, ◌≡◌, ◌≤◌, ◌<◌, ◌+◌, none, some, codes, ◌∷◌, [], ◌==◌, refl, false, Option-cases,
  inl, inr, text_eq_refl,
}

-- `_create_order` raises without having changed a row.
create_order_response-SameRows :
    {e : Env} (laws : IsDatabase e) (id : Uuid) (user : Requester) (input : List InputLine)
    (w : World e)
    → (e.order w.rows id ≡ none → e.items w.rows id ≡ [])
    → Post (λ r w'. r.status_code ≡ 201) (SameRows w) (create_order_response id user input w)
unfolding create_order_response
create_order_response-SameRows {e} laws id user input w no_orphans =
    elim (Option-cases (validate_items (validate_lines e w.rows input))) [
      | inl refused ↦ rw refused (refl, refl)
      | inr (lines, accepted) ↦ rw accepted (
          >>=-Post (Created id user.id lines w) (SameRows w) (λ r w'. r.status_code ≡ 201)
            (SameRows w)
            (λ o. do
              body ← gets (λ w. order_body e w.rows id o)
              pure (record { status_code = 201; body = an_order body }))
            (place_order id user.id lines) w (λ o w' made. refl) (λ exc w' same. same)
            (place_order_atomic laws id user.id lines w no_orphans))
    ]

-- The cache's key for the request of a user.
abbrev pub entry_key : (Uuid → Text) → Requester → Text → Text
entry_key str user key = cache_key (codes "order-create") (str user.id) key

module _ {e : Env} (c : Cache Response) (cache_laws : IsCache c) (str : Uuid → Text)
    (user : Requester) (x : ℕ) (key : Text) where
  settle_ok :
      (out : Result Response × World e) (s s' : c.Store) (r : Response) (w' : World e)
      → settle_key c str user (x ∷ key) out s ≡ (ok r, (w', s'))
      → s' ≡ complete c w'.now (codes "order-create") (str user.id) (x ∷ key) r s
  unfolding settle_key
  settle_ok (ok a, w) s s' r w' h = cc
  settle_ok (err a, w) s s' r w' h = cc

  -- A first request with the key that is answered: for a day, every request of the user with
  -- that key is answered with the same response, and changes neither rows nor cache.
  pub create_retry :
      (id id' : Uuid) (input input' : List InputLine) (w w' later : World e) (r : Response)
      (s s' : c.Store) (between : c.Store → c.Store)
      → c.get w.now (entry_key str user (x ∷ key)) s ≡ none
      → create c str id user (some (x ∷ key)) input (λ t. t) (w, s) ≡ (ok r, (w', s'))
      → w'.now ≤ later.now
      → later.now < w'.now + result_ttl_seconds
      → create c str id' user (some (x ∷ key)) input' between (later, s') ≡ (ok r, (later, s'))
  unfolding create create_begun
  create_retry id id' input input' w w' later r s s' between free done le lt =
      let scope : Text = codes "order-create" in
      let free_key = begin_free c cache_laws scope (str user.id) (x ∷ key) w.now s free in
      let locked_store = locked c cache_laws scope (str user.id) (x ∷ key) w.now s in
      let stored =
        settle_ok (create_order_response id user input w) locked_store s' r w'
          (rw (create, free_key) at done) in
      rw (
        stored,
        complete_replays c cache_laws scope (str user.id) (x ∷ key) w'.now later.now r locked_store
            between le lt,
      )

  settle_err :
      (out : Result Response × World e) (s s' : c.Store) (exc : Error) (w' : World e)
      → settle_key c str user (x ∷ key) out s ≡ (err exc, (w', s'))
      → (out ≡ (err exc, w')) × (s' ≡ abandon c (codes "order-create") (str user.id) (x ∷ key) s)
  unfolding settle_key
  settle_err (ok a, w) s s' exc w' h = cc
  settle_err (err a, w) s s' exc w' h = (cc, cc)

  -- A first request with the key that fails changes no row, and leaves the key free: the next
  -- request with it is handled. No item refers to an order that is not there.
  pub create_failure :
      (laws : IsDatabase e) (id : Uuid) (input : List InputLine) (w w' : World e) (exc : Error)
      (s s' : c.Store)
      → (e.order w.rows id ≡ none → e.items w.rows id ≡ [])
      → c.get w.now (entry_key str user (x ∷ key)) s ≡ none
      → create c str id user (some (x ∷ key)) input (λ t. t) (w, s) ≡ (err exc, (w', s'))
      → (w'.rows ≡ w.rows) × ((t : Time) → c.get t (entry_key str user (x ∷ key)) s' ≡ none)
  unfolding create create_begun abandon
  create_failure laws id input w w' exc s s' no_orphans free failed =
      let scope : Text = codes "order-create" in
      let free_key = begin_free c cache_laws scope (str user.id) (x ∷ key) w.now s free in
      let locked_store = locked c cache_laws scope (str user.id) (x ∷ key) w.now s in
      let (out, freed) =
        settle_err (create_order_response id user input w) locked_store s' exc w'
          (rw (create, free_key) at failed) in
      (
        (subst (Post (λ r w1. r.status_code ≡ 201) (SameRows w)) out
            (create_order_response-SameRows laws id user input w no_orphans)).0,
        λ t. rw (freed, cache_laws.get-delete, text_eq_refl),
      )

  -- While a request with the key is being handled, and for its lock's minute at most, every other
  -- request with the key is answered 409 and changes nothing.
  pub create_in_progress :
      (id : Uuid) (input : List InputLine) (now : Time) (later : World e) (s : c.Store)
      (between : c.Store → c.Store)
      → c.get now (entry_key str user (x ∷ key)) s ≡ none
      → now ≤ later.now
      → later.now < now + lock_ttl_seconds
      → let s' = (begin c now (codes "order-create") (str user.id) (x ∷ key) (λ t. t) s).1 in
        create c str id user (some (x ∷ key)) input between (later, s')
        ≡ (ok (record { status_code = 409; body = key_in_progress }), (later, s'))
  unfolding create create_begun
  create_in_progress id input now later s between free le lt = rw (
      (begin_locks c cache_laws (codes "order-create") (str user.id) (x ∷ key) now later.now s
        between free le lt).1)

module _ {e : Env} (user : Requester) (id : Uuid) (o : Order) (w : World e) where
  -- A customer who is not staff cannot pay or cancel the order of another: the answer is "not
  -- found", and nothing changes.
  pub others_hidden :
      e.order w.rows id ≡ some o
      → user.is_staff ≡ false
      → (o.customer == user.id) ≡ false
      → (pay user id w ≡ (err not_found, w)) × (cancel user id w ≡ (err not_found, w))
  unfolding pay cancel get_object visible
  others_hidden found customer other = rw (found, customer, other) (refl, refl)

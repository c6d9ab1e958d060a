-- ===== src/Common/Idempotency/Laws.antt =====
-- The contract of common/idempotency.py: one request at a time for a key, then its response for a
-- day, and nothing in common between keys or users.
use orbit_commerce_platform.Catalog.Models.{Time}
use orbit_commerce_platform.Common.Idempotency.{
  Cache, cache_key, IsCache, begin, complete, abandon, result_ttl_seconds, lock_ttl_seconds, Entry,
  proceed, in_progress, replay, working, done, begin_found, begin_add,
}
use orbit_commerce_platform.Prelude.{
  ◌∙◌, ℕ, Text, Lacks, ◌≡◌, ◌≤◌, ◌<◌, ◌+◌, refl, text_eq_refl, append-cancel, split_eq, codes,
  arith, none, some, ltb-true, ap,
}

-- Two keys of the same scope agree only if user and key do, since no user id holds a colon.
pub cache_key-injective :
    (scope u v k l : Text)
    → Lacks 58 u
    → Lacks 58 v
    → cache_key scope u k ≡ cache_key scope v l
    → (u ≡ v) × (k ≡ l)
unfolding cache_key
cache_key-injective scope u v k l hu hv h = split_eq 58 u v k l hu hv (
    append-cancel (codes ":") _ _
      (append-cancel scope _ _ (append-cancel (codes "idempotency:") _ _ h)))

-- An entry is read back before its time to live has passed.
get-set_live :
    {R : Type 0} (c : Cache R) (laws : IsCache c) (now later : Time) (k : Text) (v : Entry R)
    (ttl : ℕ) (s : c.Store)
    → now ≤ later
    → later < now + ttl
    → c.get later k (c.set now k v ttl s) ≡ some v
get-set_live c laws now later k v ttl s le lt =
    rw (laws.get-set later now k k v ttl s le, text_eq_refl k, ltb-true later (now + ttl) lt)

module _ {R : Type 0} (c : Cache R) (laws : IsCache c) (scope user key : Text) where
  -- The store after the lock of `key` is taken.
  abbrev pub locked : Time → c.Store → c.Store
  locked now s = c.set now (cache_key scope user key) working lock_ttl_seconds s

  pub begin_free :
      (now : Time) (s : c.Store)
      → c.get now (cache_key scope user key) s ≡ none
      → begin c now scope user key (λ x. x) s ≡ (proceed, locked now s)
  unfolding begin begin_found begin_add
  begin_free now s free =
      rw (free, laws.add_absent now (cache_key scope user key) working lock_ttl_seconds s free)

  -- The `add` of a request that was overtaken.
  begin_add_late :
      (now : Time) (s : c.Store)
      → (begin_add c now (cache_key scope user key) (locked now s)).0 ≡ in_progress
  unfolding begin_add
  begin_add_late now s = rw (
      laws.add_present now (cache_key scope user key) working working lock_ttl_seconds
        (locked now s)
        (get-set_live c laws now now (cache_key scope user key) working lock_ttl_seconds s
          (omega arith) (omega arith)))

  begin_overtaken :
      (now : Time) (s : c.Store) (between : c.Store → c.Store)
      → c.get now (cache_key scope user key) s ≡ none
      → between s ≡ locked now s
      → (begin c now scope user key between s).0 ≡ in_progress
  unfolding begin begin_found
  begin_overtaken now s between free moved =
      rw (free)
        (ap (λ x. (begin_add c now (cache_key scope user key) x).0) moved ∙ begin_add_late now s)

  -- For a key that the cache does not hold, `begin` answers "proceed"; from then on and until the
  -- lock's minute has passed, every other `begin` for the key answers "in_progress" and changes
  -- nothing, whatever other processes do between its two calls.
  pub begin_locks :
      (now later : Time) (s : c.Store) (between : c.Store → c.Store)
      → c.get now (cache_key scope user key) s ≡ none
      → now ≤ later
      → later < now + lock_ttl_seconds
      → let (outcome, s') = begin c now scope user key (λ x. x) s in
        (outcome ≡ proceed) × (begin c later scope user key between s' ≡ (in_progress, s'))
  unfolding begin begin_found begin_add
  begin_locks now later s between free le lt =
      rw
        (
          free,
          laws.add_absent now (cache_key scope user key) working lock_ttl_seconds s free,
          get-set_live c laws now later (cache_key scope user key) working lock_ttl_seconds s le lt,
        )
        (refl, refl)

  -- Two requests with the key arrive together: the second runs its whole `begin` between the
  -- `get` and the `add` of the first. Then the second proceeds and the first does not.
  pub begin_race :
      (now : Time) (s : c.Store)
      → c.get now (cache_key scope user key) s ≡ none
      → ((begin c now scope user key (λ x. x) s).0 ≡ proceed)
        × ((begin c now scope user key (λ x. (begin c now scope user key (λ y. y) x).1) s).0
            ≡ in_progress)
  begin_race now s free = (
    ap (λ p. p.0) (begin_free now s free),
    begin_overtaken now s (λ x. (begin c now scope user key (λ y. y) x).1) free
        (ap (λ p. p.1) (begin_free now s free)),
  )

  -- For a day after `complete`, `begin` answers with the stored response and changes nothing.
  pub complete_replays :
      (now later : Time) (r : R) (s : c.Store) (between : c.Store → c.Store)
      → now ≤ later
      → later < now + result_ttl_seconds
      → let s' = complete c now scope user key r s in
        begin c later scope user key between s' ≡ (replay r, s')
  unfolding begin begin_found complete
  complete_replays now later r s between le lt =
      rw (
        get-set_live c laws now later (cache_key scope user key) (done r) result_ttl_seconds s le
          lt)

  -- After `abandon` a `begin` proceeds at once.
  pub abandon_frees :
      (now : Time) (s : c.Store)
      → (begin c now scope user key (λ x. x) (abandon c scope user key s)).0 ≡ proceed
  unfolding begin begin_found begin_add abandon
  abandon_frees now s = rw (
    laws.get-delete now (cache_key scope user key) (cache_key scope user key) s,
    text_eq_refl (cache_key scope user key),
    laws.add_absent now (cache_key scope user key) working lock_ttl_seconds
        (c.delete (cache_key scope user key) s)
        (rw (
          laws.get-delete now (cache_key scope user key) (cache_key scope user key) s,
          text_eq_refl (cache_key scope user key),
        )),
  )

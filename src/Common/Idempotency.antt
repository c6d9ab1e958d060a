-- ===== src/Common/Idempotency.antt =====
-- services/core_api/apps/common/idempotency.py. The cache framework is the parameter `Cache`.
pub mod Laws
pub mod Memory
use orbit_commerce_platform.Catalog.Models.{Time}
use orbit_commerce_platform.Prelude.{
  ℕ, ◌*◌, Text, Option, if◌then◌else◌, ◌≤◌, codes, ◌++◌, Bool, some, ◌≡◌, text_eq, ltb, ◌+◌, none,
  true, false,
}

-- What the cache holds for a key: a request in progress, or the response of one that is done.
pub data Entry (R : Type 0) : Type 0 where
  working : Entry R
  done : R → Entry R

-- `cache.get`, `cache.add`, `cache.set` and `cache.delete`, each at the time of the call.
pub record Cache (R : Type 0) : Type 1 where
  pub Store : Type 0
  pub get : Time → Text → Store → Option (Entry R)
  pub add : Time → Text → Entry R → ℕ → Store → Bool × Store
  pub set : Time → Text → Entry R → ℕ → Store → Store
  pub delete : Text → Store → Store

-- An entry is read back until its time to live has passed, `add` sets a key only if it is absent,
-- and no call touches another key.
pub record IsCache {R : Type 0} (c : Cache R) : Type 0 where
  pub get-set :
      (t now : Time) (k j : Text) (v : Entry R) (ttl : ℕ) (s : c.Store)
      → now ≤ t
      → c.get t j (c.set now k v ttl s)
        ≡ (if text_eq k j then (if ltb t (now + ttl) then some v else none) else c.get t j s)
  pub get-delete :
      (t : Time) (k j : Text) (s : c.Store)
      → c.get t j (c.delete k s) ≡ (if text_eq k j then none else c.get t j s)
  pub add_absent :
      (now : Time) (k : Text) (v : Entry R) (ttl : ℕ) (s : c.Store)
      → c.get now k s ≡ none
      → c.add now k v ttl s ≡ (true, c.set now k v ttl s)
  pub add_present :
      (now : Time) (k : Text) (v x : Entry R) (ttl : ℕ) (s : c.Store)
      → c.get now k s ≡ some x
      → c.add now k v ttl s ≡ (false, s)

abbrev pub lock_ttl_seconds : ℕ
lock_ttl_seconds = 60

abbrev pub result_ttl_seconds : ℕ
result_ttl_seconds = 60 * 60 * 24

unfoldable pub cache_key : Text → Text → Text → Text
cache_key scope user key =
    codes "idempotency:" ++ (scope ++ (codes ":" ++ (user ++ (codes ":" ++ key))))

pub data Outcome (R : Type 0) : Type 0 where
  proceed : Outcome R
  in_progress : Outcome R
  replay : R → Outcome R

module _ {R : Type 0} (c : Cache R) where
  pub begin_add : Time → Text → c.Store → Outcome R × c.Store
  begin_add now key s =
      let (added, s') = c.add now key working lock_ttl_seconds s in
      ((if added then proceed else in_progress), s')

  -- After the `get`: `found` is what it returned, and `between` what other processes do to the
  -- cache before the `add`.
  pub begin_found :
      Time → Text → Option (Entry R) → (c.Store → c.Store) → c.Store → Outcome R × c.Store
  unfolding begin_add
  begin_found now key (some (done r)) between s = (replay r, s)
  begin_found now key (some working) between s = (in_progress, s)
  begin_found now key none between s = begin_add now key (between s)

  unfoldable pub begin :
      Time → Text → Text → Text → (c.Store → c.Store) → c.Store → Outcome R × c.Store
  unfolding begin_found cache_key
  begin now scope user key between s =
      begin_found now (cache_key scope user key) (c.get now (cache_key scope user key) s) between s

  unfoldable pub complete : Time → Text → Text → Text → R → c.Store → c.Store
  unfolding cache_key
  complete now scope user key r s =
      c.set now (cache_key scope user key) (done r) result_ttl_seconds s

  unfoldable pub abandon : Text → Text → Text → c.Store → c.Store
  unfolding cache_key
  abandon scope user key s = c.delete (cache_key scope user key) s

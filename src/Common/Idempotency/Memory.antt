-- ===== src/Common/Idempotency/Memory.antt =====
-- A cache in memory that satisfies `IsCache`: what is read for a key, at each time.
use orbit_commerce_platform.Catalog.Models.{Time}
use orbit_commerce_platform.Common.Idempotency.{Cache, IsCache, Entry}
use orbit_commerce_platform.Prelude.{
  ℕ, Text, Option, some, none, Bool, true, false, text_eq, ltb, ◌+◌, refl, if◌then◌else◌,
}

abbrev pub Held : Type 0 → Type 0
Held R = Time → Text → Option (Entry R)

abbrev set_entry : {R : Type 0} → Time → Text → Entry R → ℕ → Held R → Held R
set_entry now k v ttl s t j =
    if text_eq k j then (if ltb t (now + ttl) then some v else none) else s t j

abbrev add_entry :
    {R : Type 0} → Option (Entry R) → Time → Text → Entry R → ℕ → Held R → Bool × Held R
add_entry none now k v ttl s = (true, set_entry now k v ttl s)
add_entry (some x) now k v ttl s = (false, s)

abbrev pub memory_cache : {R : Type 0} → Cache R
memory_cache {R} = record {
  Store = Held R;
  get = λ t k s. s t k;
  add = λ now k v ttl s. add_entry (s now k) now k v ttl s;
  set = set_entry;
  delete = λ k s t j. if text_eq k j then none else s t j;
}

pub memory_cache-IsCache : {R : Type 0} → IsCache (memory_cache {R = R})
memory_cache-IsCache = record {
  get-set = λ t now k j v ttl s le. refl;
  get-delete = λ t k j s. refl;
  add_absent = λ now k v ttl s free. rw free;
  add_present = λ now k v x ttl s held. rw held;
}

-- ===== src/Notifications/Store/Memory.antt =====
-- A Redis in memory that satisfies `IsRedis`: the list of each key, at each time.
use orbit_commerce_platform.Catalog.Models.{Time}
use orbit_commerce_platform.Notifications.Store.{Redis, IsRedis}
use orbit_commerce_platform.Prelude.{
  ℤ, Text, List, pos, negsuc, length, ◌-◌, ◌+◌, ◌∷◌, [], if◌then◌else◌, text_eq, ltb, take, refl,
  suc, text_eq_refl,
}

abbrev pub Lists : Type 0 → Type 0
Lists N = Time → Text → List N

abbrev take_to : {N : Type 0} → ℤ → List N → List N
take_to (pos last) xs = take (suc last) xs
take_to (negsuc n) xs = take (length xs - n) xs

abbrev pub memory_redis : {N : Type 0} → Redis N
memory_redis {N} = record {
  Data = Lists N;
  entries = λ t k d. d t k;
  lpush = λ now k v d t j. if text_eq k j then v ∷ d t j else d t j;
  ltrim = λ now k last d t j. if text_eq k j then take_to last (d t j) else d t j;
  expire =
      λ now k ttl d t j. if text_eq k j then (if ltb t (now + ttl) then d now j else []) else d t j;
  lrange = λ t k last d. take_to last (d t k);
}

pub memory_redis-IsRedis : {N : Type 0} → IsRedis (memory_redis {N = N})
memory_redis-IsRedis = record {
  lrange_lem = λ t k last d. refl;
  lpush_lem = λ now k v d. rw (text_eq_refl k) refl;
  ltrim_lem = λ now k last d. rw (text_eq_refl k) refl;
  expire_lem = λ now t k ttl d le. rw (text_eq_refl k) refl;
  lpush_other = λ now t k j v d ne. rw ne refl;
  ltrim_other = λ now t k j last d ne. rw ne refl;
  expire_other = λ now t k j ttl d ne. rw ne refl;
}

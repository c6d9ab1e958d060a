-- ===== src/Notifications/Store.antt =====
-- services/notification_service/app/models/store.py.
-- Redis is the parameter `Redis`, and `IsRedis` is what its commands promise.
pub mod Feed
pub mod Memory
use orbit_commerce_platform.Catalog.Models.{Time}
use orbit_commerce_platform.Prelude.{
  ℕ, ℤ, Text, Bool, List, Option, ◌≡◌, ◌≤◌, ◌-◌, ◌+◌, ◌∷◌, [], ◌++◌, ◌&&◌, if◌then◌else◌, leb,
  codes, negsuc, pos, take, suc, some, zero, none, ltb, text_eq, false,
}

-- A list under each key. The commands that take a range take its last position, where a negative
-- one counts from the end; the first is 0.
pub record Redis (N : Type 0) : Type 1 where
  pub Data : Type 0
  pub entries : Time → Text → Data → List N
  pub lpush : Time → Text → N → Data → Data
  pub ltrim : Time → Text → ℤ → Data → Data
  pub expire : Time → Text → ℕ → Data → Data
  pub lrange : Time → Text → ℤ → Data → List N

-- `entries` is the list that a key holds at a time. A command works on the list at its time,
-- `expire` lets it stand for so many seconds, and no command touches another key.
pub record IsRedis {N : Type 0} (r : Redis N) : Type 0 where
  pub lrange_lem :
      (t : Time) (k : Text) (last : ℕ) (d : r.Data)
      → r.lrange t k (pos last) d ≡ take (suc last) (r.entries t k d)
  pub lpush_lem :
      (now : Time) (k : Text) (v : N) (d : r.Data)
      → r.entries now k (r.lpush now k v d) ≡ v ∷ r.entries now k d
  pub ltrim_lem :
      (now : Time) (k : Text) (last : ℕ) (d : r.Data)
      → r.entries now k (r.ltrim now k (pos last) d) ≡ take (suc last) (r.entries now k d)
  pub expire_lem :
      (now t : Time) (k : Text) (ttl : ℕ) (d : r.Data)
      → now ≤ t
      → r.entries t k (r.expire now k ttl d) ≡ (if ltb t (now + ttl) then r.entries now k d else [])
  pub lpush_other :
      (now t : Time) (k j : Text) (v : N) (d : r.Data)
      → text_eq k j ≡ false
      → r.entries t j (r.lpush now k v d) ≡ r.entries t j d
  pub ltrim_other :
      (now t : Time) (k j : Text) (last : ℤ) (d : r.Data)
      → text_eq k j ≡ false
      → r.entries t j (r.ltrim now k last d) ≡ r.entries t j d
  pub expire_other :
      (now t : Time) (k j : Text) (ttl : ℕ) (d : r.Data)
      → text_eq k j ≡ false
      → r.entries t j (r.expire now k ttl d) ≡ r.entries t j d

abbrev pub max_history_per_recipient : ℕ
max_history_per_recipient = 100

-- `_key`
unfoldable pub history_key : Text → Text
history_key recipient = codes "notifications:" ++ recipient

-- `limit - 1`, which is -1 for a limit of 0.
unfoldable pub last_of : ℕ → ℤ
last_of zero = negsuc 0
last_of (suc n) = pos n

module _ {N : Type 0} (r : Redis N) (ttl_seconds : ℕ) where
  unfoldable pub append : Time → Text → N → r.Data → r.Data
  unfolding history_key last_of
  append now recipient n d =
      let key = history_key recipient in
      let pushed = r.lpush now key n d in
      let trimmed = r.ltrim now key (last_of max_history_per_recipient) pushed in
      r.expire now key ttl_seconds trimmed

  unfoldable pub list_recent : Time → Text → ℕ → r.Data → List N
  unfolding history_key last_of
  list_recent now recipient limit d = r.lrange now (history_key recipient) (last_of limit) d

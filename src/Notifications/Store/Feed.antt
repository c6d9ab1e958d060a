-- ===== src/Notifications/Store/Feed.antt =====
-- The history of a recipient in app/models/store.py, as a feed: what it shows is the newest of
-- what was ever appended.
use orbit_commerce_platform.Notifications.Store.{
  Redis, IsRedis, append, history_key, max_history_per_recipient, list_recent, last_of,
}
use orbit_commerce_platform.Catalog.Models.{Time}
use orbit_commerce_platform.Prelude.{
  ◌≢◌, ltb-true, ℕ, Text, List, ◌≡◌, ◌≤◌, ◌<◌, ◌+◌, ◌∷◌, [], take, suc, arith, ap, zero, refl,
  text_ne, append-cancel, codes, if◌then◌else◌, ltb,
}

take-take : {A : Type 0} (m n : ℕ) (xs : List A) → m ≤ n → take m (take n xs) ≡ take m xs
take-take zero n xs le = refl
take-take (suc m) zero xs le = ground arith
take-take (suc m) (suc n) [] le = refl
take-take (suc m) (suc n) (x ∷ xs) le = ap (λ l. x ∷ l) (take-take m n xs (omega arith))

-- One more in front of a capped list.
take_cons :
    {A : Type 0} (n : ℕ) (x : A) (xs : List A)
    → take (suc n) (x ∷ take (suc n) xs) ≡ take (suc n) (x ∷ xs)
take_cons n x xs = ap (λ l. x ∷ l) (take-take n (suc n) xs (omega arith))

-- The steps in order, newest first, before what was there.
abbrev pub newest : {N : Type 0} → List (Time × N) → List N → List N
newest [] old = old
newest ((t, n) ∷ steps) old = newest steps (n ∷ old)

module _ {N : Type 0} (r : Redis N) (laws : IsRedis r) (ttl_seconds : ℕ) (recipient : Text) where
  abbrev pub append_all : List (Time × N) → r.Data → r.Data
  append_all [] d = d
  append_all ((t, n) ∷ steps) d = append_all steps (append r ttl_seconds t recipient n d)

  -- From `t0` on, no step and not the end `t` comes later than the time to live after the one
  -- before.
  abbrev pub Unbroken : Time → List (Time × N) → Time → Type 0
  Unbroken t0 [] t = (t0 ≤ t) × (t < t0 + ttl_seconds)
  Unbroken t0 ((t1, n) ∷ steps) t = ((t0 ≤ t1) × (t1 < t0 + ttl_seconds)) × Unbroken t1 steps t

  -- After an `append` at `t0`, the key shows the newest hundred of `xs` while it lives.
  abbrev Shows : Time → List N → r.Data → Type 0
  Shows t0 xs d =
      (t : Time)
      → t0 ≤ t
      → t < t0 + ttl_seconds
      → r.entries t (history_key recipient) d ≡ take max_history_per_recipient xs

  -- What an `append` leaves for its recipient.
  pub append-entries :
      (t0 t : Time) (n : N) (d : r.Data)
      → t0 ≤ t
      → r.entries t (history_key recipient) (append r ttl_seconds t0 recipient n d) ≡ (
          if ltb t (t0 + ttl_seconds)
          then take max_history_per_recipient (n ∷ r.entries t0 (history_key recipient) d)
          else [])
  unfolding append last_of
  append-entries t0 t n d le = rw (
    laws.expire_lem t0 t (history_key recipient) ttl_seconds _ le,
    laws.ltrim_lem,
    laws.lpush_lem,
  )

  append-Shows :
      (t0 : Time) (n : N) (d : r.Data) (xs : List N)
      → r.entries t0 (history_key recipient) d ≡ take max_history_per_recipient xs
      → Shows t0 (n ∷ xs) (append r ttl_seconds t0 recipient n d)
  unfolding append last_of
  append-Shows t0 n d xs before t le lt =
      rw
        (
          laws.expire_lem t0 t (history_key recipient) ttl_seconds _ le,
          ltb-true t (t0 + ttl_seconds) lt,
          laws.ltrim_lem,
          laws.lpush_lem,
          before,
        )
        (take_cons 99 n xs)

  append_all-Shows :
      (steps : List (Time × N)) (t0 t : Time) (xs : List N) (d : r.Data)
      → Shows t0 xs d
      → Unbroken t0 steps t
      → r.entries t (history_key recipient) (append_all steps d)
        ≡ take max_history_per_recipient (newest steps xs)
  append_all-Shows [] t0 t xs d shows (le, lt) = shows t le lt
  append_all-Shows ((t1, n) ∷ steps) t0 t xs d shows ((le, lt), rest) =
      append_all-Shows steps t1 t (n ∷ xs) (append r ttl_seconds t1 recipient n d)
        (append-Shows t1 n d xs (shows t1 le lt)) rest

  -- What was appended to an empty history, never as long after the last as the time to live, is
  -- shown newest first, as much as the limit allows.
  pub list_recent-newest :
      (t0 t : Time) (n : N) (steps : List (Time × N)) (limit : ℕ) (d : r.Data)
      → r.entries t0 (history_key recipient) d ≡ []
      → Unbroken t0 steps t
      → suc limit ≤ 100
      → list_recent r ttl_seconds t recipient (suc limit) (append_all ((t0, n) ∷ steps) d)
        ≡ take (suc limit) (newest ((t0, n) ∷ steps) [])
  unfolding list_recent last_of
  list_recent-newest t0 t n steps limit d empty chain lt =
      let shown =
        append_all-Shows steps t0 t (n ∷ []) (append r ttl_seconds t0 recipient n d)
          (append-Shows t0 n d [] empty) chain in
      rw (laws.lrange_lem, shown) (take-take (suc limit) 100 (newest steps (n ∷ [])) lt)

  -- A notification for one recipient leaves the history of every other as it was.
  pub append_other :
      (now t : Time) (other : Text) (n : N) (d : r.Data)
      → recipient ≢ other
      → r.entries t (history_key other) (append r ttl_seconds now recipient n d)
        ≡ r.entries t (history_key other) d
  unfolding append history_key
  append_other now t other n d ne =
      let apart =
        text_ne (history_key recipient) (history_key other)
          (λ h. ne (append-cancel (codes "notifications:") recipient other h)) in
      rw (
        laws.expire_other now t (history_key recipient) (history_key other) ttl_seconds _ apart,
        laws.ltrim_other now t (history_key recipient) (history_key other) _ _ apart,
        laws.lpush_other now t (history_key recipient) (history_key other) n d apart,
      )

-- ===== src/Notifications/Consumer/Faults/Capped.antt =====
-- How long the list under a key gets when Redis fails at any command.
use orbit_commerce_platform.Notifications.Consumer.Faults.{
  append_until, follow, run_faulty, Fault, store_and_send, handle_faulty, no_fault, Route,
  lpush_fails, stores, ltrim_fails, leaves, skips, raises, expire_fails, route, store_odd,
}
use orbit_commerce_platform.Notifications.Manager.{Socket}
use orbit_commerce_platform.Notifications.Consumer.{
  Notification, Json, Incoming, State, deliver, run_next, deliver_odd, is_hashable,
}
use orbit_commerce_platform.Notifications.Store.{Redis, IsRedis, append, last_of, history_key}
use orbit_commerce_platform.Notifications.Store.Feed.{append-entries}
use orbit_commerce_platform.Catalog.Models.{Time}
use orbit_commerce_platform.Prelude.{
  ◌≡◌, ◌≤◌, ◌∷◌, [], ◌⊎◌, ℕ, Bool, List, Text, true, false, refl, length, inl, inr, text_eq,
  if◌then◌else◌, Bool-cases, take, sym, length-take, arith, text_eq_sound, ltb, ◌+◌,
}

module _ (r : Redis Notification) (laws : IsRedis r) (ttl_seconds : ℕ) where
  abbrev pub AtMost : ℕ → Time → r.Data → Type 0
  AtMost n t d = (k : Text) → length (r.entries t k d) ≤ n

  -- From `t0` on, the list under each key has a hundred entries at most.
  abbrev pub Capped : Time → r.Data → Type 0
  Capped t0 d = (t : Time) → t0 ≤ t → AtMost 100 t d

  -- The list under one key is changed, and the others stay.
  at_key :
      (key : Text) (m : ℕ) (t u : Time) (d d' : r.Data)
      → length (r.entries t key d') ≤ m
      → 100 ≤ m
      → ((k : Text) → text_eq key k ≡ false → r.entries t k d' ≡ r.entries t k d)
      → AtMost 100 t d
      → AtMost m t d'
  at_key key m t u d d' here le same most k = elim (Bool-cases (text_eq key k)) [
    | inl equal ↦ rw (sym (text_eq_sound key k equal)) here
    | inr apart ↦ rw (same k apart) (omega (arith, most k, le))
  ]

  expired : (b : Bool) (xs : List Notification) → length (if b then take 100 xs else []) ≤ 100
  expired true xs = rw (length-take 100 xs) (ground arith)
  expired false xs = ground arith

  append-Capped :
      (t0 now : Time) (recipient : Text) (n : Notification) (d : r.Data)
      → t0 ≤ now
      → Capped t0 d
      → Capped now (append r ttl_seconds now recipient n d)
  unfolding append last_of
  append-Capped t0 now recipient n d le capped t later =
      at_key (history_key recipient) 100 t t d (append r ttl_seconds now recipient n d)
        (rw (append-entries r laws ttl_seconds recipient now t n d later)
          (expired (ltb t (now + ttl_seconds)) (n ∷ r.entries now (history_key recipient) d)))
        (omega arith)
        (λ k apart. rw (
          laws.expire_other now t (history_key recipient) k ttl_seconds _ apart,
          laws.ltrim_other now t (history_key recipient) k _ _ apart,
          laws.lpush_other now t (history_key recipient) k n d apart,
        ))
        (capped t (omega (arith, le, later)))

  module _ (sends : Socket → Notification → Bool) (formatted : Json → Text) where
    -- With any fault, one entry more at most when the consumer stops.
    append_until-AtMost :
        (fault : Fault) (t0 now : Time) (recipient : Text) (n : Notification) (d : r.Data)
        → t0 ≤ now
        → Capped t0 d
        → AtMost 101 now (append_until r ttl_seconds sends formatted fault now recipient n d)
    unfolding append_until last_of
    append_until-AtMost no_fault t0 now recipient n d le capped =
        λ k. omega (arith, append-Capped t0 now recipient n d le capped now (omega arith) k)
    append_until-AtMost lpush_fails t0 now recipient n d le capped =
        λ k. omega (arith, capped now le k)
    append_until-AtMost ltrim_fails t0 now recipient n d le capped =
        at_key (history_key recipient) 101 now now d _
          (rw (laws.lpush_lem now (history_key recipient) n d)
            (omega (arith, capped now le (history_key recipient))))
          (omega arith) (λ k apart. laws.lpush_other now now (history_key recipient) k n d apart)
          (capped now le)
    append_until-AtMost expire_fails t0 now recipient n d le capped =
        at_key (history_key recipient) 101 now now d _
          (rw (laws.ltrim_lem now (history_key recipient) 99 _, length-take 100) (ground arith))
          (omega arith)
          (λ k apart. rw (
            laws.ltrim_other now now (history_key recipient) k _ _ apart,
            laws.lpush_other now now (history_key recipient) k n d apart,
          ))
          (capped now le)

    -- The messages come in the order of their times, the first not before `t0` and the last not
    -- after `until`.
    abbrev pub InOrder : Time → List (Fault × Incoming) → Time → Type 0
    InOrder t0 [] until = t0 ≤ until
    InOrder t0 ((f, m) ∷ rest) until = (t0 ≤ m.now) × InOrder m.now rest until

    -- A stopped consumer leaves one entry more at most, at the time it stopped.
    abbrev pub Left : Time → Time → Bool × State r → Type 0
    Left t0 until out =
        ((out.0 ≡ true) × Capped until out.1.history)
        ⊎ ((out.0 ≡ false)
            × ((stopped : Time) × (t0 ≤ stopped)
                × (stopped ≤ until)
                × AtMost 101 stopped out.1.history))

    -- After a message: going on with the cap, or stopped with one entry more at most.
    abbrev After : Time → Bool × State r → Type 0
    After now (running, s) =
        ((running ≡ true) × Capped now s.history) ⊎ ((running ≡ false) × AtMost 101 now s.history)

    stored_After :
        (fault : Fault) (t0 now : Time) (recipient : Text) (n : Notification) (s : State r)
        → t0 ≤ now
        → Capped t0 s.history
        → After now (store_and_send r ttl_seconds sends formatted fault now recipient n s)
    unfolding store_and_send deliver
    stored_After no_fault t0 now recipient n s le capped =
        inl (refl, append-Capped t0 now recipient n s.history le capped)
    stored_After lpush_fails t0 now recipient n s le capped =
        inr (refl, append_until-AtMost lpush_fails t0 now recipient n s.history le capped)
    stored_After ltrim_fails t0 now recipient n s le capped =
        inr (refl, append_until-AtMost ltrim_fails t0 now recipient n s.history le capped)
    stored_After expire_fails t0 now recipient n s le capped =
        inr (refl, append_until-AtMost expire_fails t0 now recipient n s.history le capped)

    odd_After :
        (fault : Fault) (t0 now : Time) (v : Json) (n : Notification) (s : State r)
        → t0 ≤ now
        → Capped t0 s.history
        → After now (store_odd r ttl_seconds sends formatted fault now v n s)
    unfolding store_odd deliver_odd
    odd_After no_fault t0 now v n s le capped =
        let kept = append-Capped t0 now (formatted v) n s.history le capped in
        elim (Bool-cases (is_hashable v)) [
          | inl hashable ↦ inl (hashable, kept)
          | inr unhashable ↦ inr (unhashable, λ k. omega (arith, kept now (omega arith) k))
        ]
    odd_After lpush_fails t0 now v n s le capped =
        inr (refl, append_until-AtMost lpush_fails t0 now (formatted v) n s.history le capped)
    odd_After ltrim_fails t0 now v n s le capped =
        inr (refl, append_until-AtMost ltrim_fails t0 now (formatted v) n s.history le capped)
    odd_After expire_fails t0 now v n s le capped =
        inr (refl, append_until-AtMost expire_fails t0 now (formatted v) n s.history le capped)

    follow-After :
        (route : Route) (fault : Fault) (m : Incoming) (t0 : Time) (s : State r)
        → t0 ≤ m.now
        → Capped t0 s.history
        → After m.now (follow r ttl_seconds sends formatted route fault m s)
    unfolding follow
    follow-After skips fault m t0 s le capped =
        inl (refl, λ t later. capped t (omega (arith, le, later)))
    follow-After (stores recipient n) fault m t0 s le capped =
        stored_After fault t0 m.now recipient n s le capped
    follow-After raises fault m t0 s le capped = inr (refl, λ k. omega (arith, capped m.now le k))
    follow-After (leaves v n) fault m t0 s le capped = odd_After fault t0 m.now v n s le capped

    within : (ms : List (Fault × Incoming)) (t0 until : Time) → InOrder t0 ms until → t0 ≤ until
    within [] t0 until order = order
    within ((f, m) ∷ ms) t0 until (le, order) = omega (arith, le, within ms m.now until order)

    later_Left :
        (t0 t1 until : Time) (out : Bool × State r)
        → t0 ≤ t1
        → Left t1 until out
        → Left t0 until out
    later_Left t0 t1 until (running, s) le (inl going) = inl going
    later_Left t0 t1 until (running, s) le (inr (ended, (stopped, from, to, most))) =
        inr (ended, (stopped, omega (arith, le, from), to, most))

    run_next-Left :
        (t0 now until : Time) (out : Bool × State r) (rest : State r → Bool × State r)
        → t0 ≤ now
        → now ≤ until
        → After now out
        → ((s' : State r) → Capped now s'.history → Left now until (rest s'))
        → Left t0 until (run_next r ttl_seconds sends formatted out rest)
    unfolding run_next
    run_next-Left t0 now until (true, s) rest le to (inl (going, capped)) goes =
        later_Left t0 now until (rest s) le (goes s capped)
    run_next-Left t0 now until (false, s) rest le to (inl (going, capped)) goes = cc
    run_next-Left t0 now until (true, s) rest le to (inr (ended, most)) goes = cc
    run_next-Left t0 now until (false, s) rest le to (inr (ended, most)) goes =
        inr (refl, (now, le, to, most))

    -- The messages come in the order of their times, hold whatever they hold, and any command of
    -- Redis may raise at each; at first the list under each key has a hundred entries at most.
    -- Then a consumer that still runs leaves a hundred at most under each key from then on, and
    -- one that has stopped had left a hundred and one at most when it stopped.
    pub run_faulty-Left :
        (ms : List (Fault × Incoming)) (t0 until : Time) (s : State r)
        → InOrder t0 ms until
        → Capped t0 s.history
        → Left t0 until (run_faulty r ttl_seconds sends formatted ms s)
    unfolding run_faulty handle_faulty
    run_faulty-Left [] t0 until s order capped =
        inl (refl, λ t later. capped t (omega (arith, order, later)))
    run_faulty-Left ((fault, m) ∷ ms) t0 until s (le, order) capped =
        run_next-Left t0 m.now until (handle_faulty r ttl_seconds sends formatted fault m s)
          (λ s'. run_faulty r ttl_seconds sends formatted ms s') le (within ms m.now until order)
          (follow-After (route m) fault m t0 s le capped)
          (λ s' capped'. run_faulty-Left ms m.now until s' order capped')

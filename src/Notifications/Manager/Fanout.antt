-- ===== src/Notifications/Manager/Fanout.antt =====
-- What app/ws/manager.py promises: who gets a message, and which connections are kept.
use mathlib.Core.Path.{subst}
use orbit_commerce_platform.Notifications.Manager.{
  connect, Socket, contains, Connections, sockets, disconnect, broadcast_loop, add, broadcast,
  pop_empty, discard, put,
}
use orbit_commerce_platform.Prelude.{
  ◌∙◌, filter, Text, Bool, List, ◌≡◌, ◌≢◌, ◌∷◌, [], ◌++◌, ◌||◌, ◌&&◌, ◌==◌, not, refl, text_eq, sym,
  arith, Bool-cases, inl, append-nil, text_eq_sound, inr, append_assoc, true, ==_iff, false,
  text_eq_refl, text_ne,
}

and_true : (a : Bool) → a ≡ (a && true)
and_true a = ground arith

pub kept : (a b : Bool) → a ≡ (a && not (b && false))
kept a b = ground arith

reached : (a q : Bool) → (a && not (a && not q)) ≡ (a && q)
reached a q = ground arith

-- A socket that took the message stays.
pub spared :
    (a b c q k : Bool)
    → (k ≡ true → q ≡ true)
    → (a && not (b && (c && not q))) ≡ (a && not (b && ((k || c) && not q)))
spared a b c q k h = ground arith

-- A socket that failed is taken out.
pub dropped :
    (a b c q k k' : Bool)
    → k ≡ k'
    → (k ≡ true → q ≡ false)
    → ((a && not (b && k')) && not (b && (c && not q))) ≡ (a && not (b && ((k || c) && not q)))
dropped a b c q k k' same h = ground arith

abbrev pub live : Text → Connections → List Socket
live recipient conns = sockets (conns recipient)

contains-discard :
    (s y : Socket) (xs : List Socket) → contains y (discard s xs) ≡ (contains y xs && not (s == y))
unfolding contains discard
contains-discard s y [] = refl
contains-discard s y (x ∷ xs) = ground (arith, contains-discard s y xs)

contains-add : (s y : Socket) (xs : List Socket) → contains y (add s xs) ≡ (s == y || contains y xs)
unfolding contains add
contains-add s y xs = elim (Bool-cases (contains s xs)) [
  | inl there ↦ elim (Bool-cases (s == y)) [
    | inl same ↦ rw (there, same) (subst (λ z. contains z xs ≡ true) ((==_iff s y).0 same) there)
    | inr other ↦ rw (there, other)
  ]
  | inr new ↦ rw new (ground arith)
]

sockets-pop_empty : (xs : List Socket) → sockets (pop_empty xs) ≡ xs
unfolding sockets pop_empty
sockets-pop_empty [] = refl
sockets-pop_empty (x ∷ xs) = refl

-- A connected socket is in its recipient's set, a disconnected one is not, and nothing else
-- changes for that recipient or any other.
pub connect-disconnect :
    (recipient other : Text) (s y : Socket) (conns : Connections)
    → (contains y (live other (connect recipient s conns))
        ≡ ((text_eq recipient other && s == y) || contains y (live other conns)))
      × (contains y (live other (disconnect recipient s conns))
          ≡ (contains y (live other conns) && not (text_eq recipient other && s == y)))
unfolding connect disconnect put
connect-disconnect recipient other s y conns = elim (Bool-cases (text_eq recipient other)) [
  | inl same ↦
      let here : recipient ≡ other = text_eq_sound recipient other same in
      rw (same, here)
        (
          contains-add s y (live other conns),
          rw (sockets-pop_empty) (contains-discard s y (live other conns)),
        )
  | inr apart ↦ rw apart (refl, and_true _)
]

module _ {N : Type 0} (sends : Socket → N → Bool) (recipient : Text) (n : N) where
  loop-sent :
      (xs sent : List Socket) (conns : Connections)
      → (broadcast_loop sends recipient n xs sent conns).0 ≡ sent ++ filter (λ s. sends s n) xs
  unfolding broadcast_loop
  loop-sent [] sent conns = sym (append-nil sent)
  loop-sent (s ∷ rest) sent conns = elim (Bool-cases (sends s n)) [
    | inl good ↦ rw good (loop-sent rest (sent ++ s ∷ []) conns ∙ append_assoc sent (s ∷ []) _)
    | inr bad ↦ rw bad (loop-sent rest sent (disconnect recipient s conns))
  ]

  loop-live :
      (xs sent : List Socket) (conns : Connections) (other : Text) (y : Socket)
      → contains y (live other (broadcast_loop sends recipient n xs sent conns).1) ≡ (
          contains y (live other conns)
          && not (text_eq recipient other && (contains y xs && not (sends y n))))
  unfolding broadcast_loop contains
  loop-live [] sent conns other y = kept _ _
  loop-live (s ∷ rest) sent conns other y = elim (Bool-cases (sends s n)) [
    | inl good ↦ rw good (
        loop-live rest (sent ++ s ∷ []) conns other y
        ∙ spared _ _ _ _ _ (λ same. subst (λ z. sends z n ≡ true) (sym ((==_iff y s).0 same)) good))
    | inr bad ↦ rw bad (
        loop-live rest sent (disconnect recipient s conns) other y
        ∙ rw ((connect-disconnect recipient other s y conns).1) (
            dropped _ _ _ _ (y == s) (s == y) (ground arith)
              (λ same. subst (λ z. sends z n ≡ false) (sym ((==_iff y s).0 same)) bad)))
  ]

  -- A broadcast goes to the recipient's sockets in turn, each of which takes it or fails; a
  -- failed socket does not keep it from the others. Afterwards the recipient's sockets are those
  -- that took it, and those of every other recipient are as they were.
  pub broadcast_exact :
      (conns : Connections)
      → ((broadcast sends recipient n conns).0 ≡ filter (λ s. sends s n) (live recipient conns))
        × ((y : Socket)
            → contains y (live recipient (broadcast sends recipient n conns).1)
              ≡ (contains y (live recipient conns) && sends y n))
        × ((other : Text) (y : Socket)
            → recipient ≢ other
            → contains y (live other (broadcast sends recipient n conns).1)
              ≡ contains y (live other conns))
  unfolding broadcast
  broadcast_exact conns = (
    loop-sent (live recipient conns) [] conns,
    λ y.
        loop-live (live recipient conns) [] conns recipient y
        ∙ rw (text_eq_refl recipient) (reached _ _),
    λ other y ne.
        loop-live (live recipient conns) [] conns other y
        ∙ rw (text_ne recipient other ne) (sym (and_true _)),
  )

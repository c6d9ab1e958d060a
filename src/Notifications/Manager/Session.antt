-- ===== src/Notifications/Manager/Session.antt =====
-- services/notification_service/app/routers/ws.py, and app/ws/manager.py where tasks take turns:
-- a `broadcast` waits while it sends, and meanwhile other tasks connect and disconnect. Between two
-- waits nothing else runs, so that what the others do is a list of changes to the connections.
use mathlib.Core.Path.{subst}
use orbit_commerce_platform.Notifications.Manager.Fanout.{
  connect-disconnect, live, kept, spared, dropped,
}
use orbit_commerce_platform.Notifications.Manager.{
  Socket, Connections, disconnect, contains, sockets, connect,
}
use orbit_commerce_platform.Prelude.{
  ◌≡◌, ◌&&◌, ◌||◌, ◌==◌, ◌∷◌, ◌++◌, ◌∙◌, Text, Bool, List, not, [], All, false, filter, arith, sym,
  if◌then◌else◌, text_eq, refl, append-nil, true, Bool-cases, text_eq_refl, ==_refl, inl,
  append_assoc, text_eq_sound, inr, ==_iff,
}

pub data SocketEvent : Type 0 where
  joined : Text → Socket → SocketEvent
  left : Text → Socket → SocketEvent

unfoldable pub socket_event : SocketEvent → Connections → Connections
socket_event (joined recipient s) conns = connect recipient s conns
socket_event (left recipient s) conns = disconnect recipient s conns

unfoldable pub socket_events : List SocketEvent → Connections → Connections
unfolding socket_event
socket_events [] conns = conns
socket_events (e ∷ es) conns = socket_events es (socket_event e conns)

-- `notifications_socket`, from its `connect` to its `finally`, which is reached whether the client
-- disconnects or an exception ends the loop; `meanwhile` is what others do until then.
unfoldable pub notifications_socket : Text → Socket → List SocketEvent → Connections → Connections
unfolding socket_events
notifications_socket recipient s meanwhile conns =
    disconnect recipient s (socket_events meanwhile (connect recipient s conns))

module _ {N : Type 0} (sends : Socket → N → Bool) (meanwhile : Socket → List SocketEvent) where
  -- The loop of `broadcast`, with what others do while it sends to each socket.
  unfoldable pub broadcast_turns :
      Text → N → List Socket → List Socket → Connections → List Socket × Connections
  unfolding socket_events
  broadcast_turns recipient n [] sent conns = (sent, conns)
  broadcast_turns recipient n (s ∷ rest) sent conns =
      let now = socket_events (meanwhile s) conns in
      let delivered = broadcast_turns recipient n rest (sent ++ s ∷ []) now in
      let failed = broadcast_turns recipient n rest sent (disconnect recipient s now) in
      if sends s n then delivered else failed

  unfoldable pub broadcast_meanwhile : Text → N → Connections → List Socket × Connections
  unfolding broadcast_turns sockets
  broadcast_meanwhile recipient n conns =
      broadcast_turns recipient n (sockets (conns recipient)) [] conns

abbrev pub about : SocketEvent → Socket
about (joined recipient s) = s
about (left recipient s) = s

no_one : (a b : Bool) → ((a && false) || b) ≡ b
no_one a b = ground arith

all_stay : (a b : Bool) → (b && not (a && false)) ≡ b
all_stay a b = ground arith

same_recipient : (a b : Bool) → (a && not (a && not b)) ≡ (a && not (not b))
same_recipient a b = ground arith

nowhere : (a : Bool) → (a && false) ≡ false
nowhere a = ground arith

-- The events leave the socket `y` alone.
abbrev pub Leaves : Socket → List SocketEvent → Type 0
Leaves y es = All (λ e. (about e == y) ≡ false) es

event-live :
    (e : SocketEvent) (conns : Connections) (other : Text) (y : Socket)
    → (about e == y) ≡ false
    → contains y (live other (socket_event e conns)) ≡ contains y (live other conns)
unfolding socket_event
event-live (joined recipient s) conns other y apart =
    (connect-disconnect recipient other s y conns).0 ∙ rw apart (no_one _ _)
event-live (left recipient s) conns other y apart =
    (connect-disconnect recipient other s y conns).1 ∙ rw apart (all_stay _ _)

events-live :
    (es : List SocketEvent) (conns : Connections) (other : Text) (y : Socket)
    → Leaves y es
    → contains y (live other (socket_events es conns)) ≡ contains y (live other conns)
unfolding socket_events
events-live [] conns other y h = refl
events-live (e ∷ es) conns other y (apart, h) =
    events-live es (socket_event e conns) other y h ∙ event-live e conns other y apart

module _ {N : Type 0} (sends : Socket → N → Bool) (meanwhile : Socket → List SocketEvent)
    (recipient : Text) (n : N) where
  turns-sent :
      (xs sent : List Socket) (conns : Connections)
      → (broadcast_turns sends meanwhile recipient n xs sent conns).0
        ≡ sent ++ filter (λ s. sends s n) xs
  unfolding broadcast_turns
  turns-sent [] sent conns = sym (append-nil sent)
  turns-sent (s ∷ rest) sent conns = elim (Bool-cases (sends s n)) [
    | inl good ↦ rw good (turns-sent rest (sent ++ s ∷ []) _ ∙ append_assoc sent (s ∷ []) _)
    | inr bad ↦ rw bad (turns-sent rest sent _)
  ]

  turns-live :
      (xs sent : List Socket) (conns : Connections) (other : Text) (y : Socket)
      → ((s : Socket) → Leaves y (meanwhile s))
      → contains y (live other (broadcast_turns sends meanwhile recipient n xs sent conns).1) ≡ (
          contains y (live other conns)
          && not (text_eq recipient other && (contains y xs && not (sends y n))))
  unfolding broadcast_turns contains
  turns-live [] sent conns other y h = kept _ _
  turns-live (s ∷ rest) sent conns other y h = elim (Bool-cases (sends s n)) [
    | inl good ↦ rw good (
        turns-live rest (sent ++ s ∷ []) _ other y h
        ∙ rw (events-live (meanwhile s) conns other y (h s)) (
            spared _ _ _ _ _
              (λ same. subst (λ z. sends z n ≡ true) (sym ((==_iff y s).0 same)) good)))
    | inr bad ↦ rw bad (
        turns-live rest sent _ other y h
        ∙ rw
            (
              (connect-disconnect recipient other s y _).1,
              events-live (meanwhile s) conns other y (h s),
            )
            (dropped _ _ _ _ (y == s) (s == y) (ground arith)
              (λ same. subst (λ z. sends z n ≡ false) (sym ((==_iff y s).0 same)) bad)))
  ]

  -- Whatever connects and disconnects while a broadcast sends, it goes to the sockets that its
  -- recipient had when it began, in turn, and to no other; and a socket that the others leave alone
  -- is dropped exactly if it is one of these and fails.
  pub broadcast_meanwhile_exact :
      (conns : Connections)
      → ((broadcast_meanwhile sends meanwhile recipient n conns).0
          ≡ filter (λ s. sends s n) (live recipient conns))
        × ((other : Text) (y : Socket)
            → ((s : Socket) → Leaves y (meanwhile s))
            → contains y (live other (broadcast_meanwhile sends meanwhile recipient n conns).1)
              ≡ (contains y (live other conns) && not (text_eq recipient other && not (sends y n))))
  unfolding broadcast_meanwhile
  broadcast_meanwhile_exact conns = (
    turns-sent (live recipient conns) [] conns,
    λ other y h.
        turns-live (live recipient conns) [] conns other y h
        ∙ elim (Bool-cases (text_eq recipient other)) [
          | inl same ↦ rw (same, text_eq_sound recipient other same) (same_recipient _ _)
          | inr apart ↦ rw apart refl
        ],
  )

-- The connections of every socket but one are the same.
abbrev pub SameBut : Socket → Connections → Connections → Type 0
SameBut s c d =
    (other : Text) (y : Socket)
    → (s == y) ≡ false
    → contains y (live other c) ≡ contains y (live other d)

event-SameBut :
    (s : Socket) (e : SocketEvent) (c d : Connections)
    → SameBut s c d
    → SameBut s (socket_event e c) (socket_event e d)
unfolding socket_event
event-SameBut s (joined recipient x) c d same other y apart =
    (connect-disconnect recipient other x y c).0
    ∙ rw (same other y apart) (sym ((connect-disconnect recipient other x y d).0))
event-SameBut s (left recipient x) c d same other y apart =
    (connect-disconnect recipient other x y c).1
    ∙ rw (same other y apart) (sym ((connect-disconnect recipient other x y d).1))

events-SameBut :
    (s : Socket) (es : List SocketEvent) (c d : Connections)
    → SameBut s c d
    → SameBut s (socket_events es c) (socket_events es d)
unfolding socket_events
events-SameBut s [] c d same = same
events-SameBut s (e ∷ es) c d same = events-SameBut s es _ _ (event-SameBut s e c d same)

-- While a client is connected its socket is one of its recipient's, as long as nobody drops it.
-- When its connection is over the socket is gone, and every other socket is where it would be had
-- the client never come.
pub notifications_socket_exact :
    (recipient : Text) (s : Socket) (meanwhile : List SocketEvent) (conns : Connections)
    → (Leaves s meanwhile
        → contains s (live recipient (socket_events meanwhile (connect recipient s conns))) ≡ true)
      × (contains s (live recipient (notifications_socket recipient s meanwhile conns)) ≡ false)
      × SameBut s (notifications_socket recipient s meanwhile conns) (socket_events meanwhile conns)
unfolding notifications_socket
notifications_socket_exact recipient s meanwhile conns =
    let open_now = socket_events meanwhile (connect recipient s conns) in
    (
      λ h.
          events-live meanwhile (connect recipient s conns) recipient s h
          ∙ (connect-disconnect recipient recipient s s conns).0
          ∙ rw (text_eq_refl recipient, ==_refl s) refl,
      (connect-disconnect recipient recipient s s open_now).1
          ∙ rw (text_eq_refl recipient, ==_refl s) (nowhere _),
      λ other y apart.
          event-live (left recipient s) open_now other y apart
          ∙ events-SameBut s meanwhile (connect recipient s conns) conns
              (λ o z ne. event-live (joined recipient s) conns o z ne) other y apart,
    )

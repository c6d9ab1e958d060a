-- ===== src/Notifications/Manager.antt =====
-- services/notification_service/app/ws/manager.py. A socket is known by its identity. A set of
-- sockets is a list, whose order stands for the order in which the set is iterated.
pub mod Fanout
pub mod Session
use orbit_commerce_platform.Prelude.{
  ℕ, Text, Bool, List, Option, ◌≡◌, ◌∷◌, [], ◌++◌, ◌||◌, ◌==◌, if◌then◌else◌, none, some, false,
  text_eq,
}

abbrev pub Socket : Type 0
Socket = ℕ

-- `_connections`; `none` is a key that the dictionary does not hold.
abbrev pub Connections : Type 0
Connections = Text → Option (List Socket)

unfoldable pub contains : Socket → List Socket → Bool
contains s [] = false
contains s (x ∷ xs) = s == x || contains s xs

-- `set.add`
unfoldable pub add : Socket → List Socket → List Socket
unfolding contains
add s xs = if contains s xs then xs else s ∷ xs

-- `set.discard`
unfoldable pub discard : Socket → List Socket → List Socket
discard s [] = []
discard s (x ∷ xs) = if s == x then discard s xs else x ∷ discard s xs

-- What `_connections[recipient]` and `_connections.get(recipient, ())` give.
unfoldable pub sockets : Option (List Socket) → List Socket
sockets none = []
sockets (some xs) = xs

unfoldable pub put : Text → Option (List Socket) → Connections → Connections
put recipient entry conns j = if text_eq recipient j then entry else conns j

-- `connect`, after `accept`.
unfoldable pub connect : Text → Socket → Connections → Connections
unfolding add sockets put
connect recipient s conns = put recipient (some (add s (sockets (conns recipient)))) conns

-- A set that has become empty is taken out of the dictionary.
pub pop_empty : List Socket → Option (List Socket)
pop_empty [] = none
pop_empty (x ∷ xs) = some (x ∷ xs)

unfoldable pub disconnect : Text → Socket → Connections → Connections
unfolding discard sockets put pop_empty
disconnect recipient s conns =
    put recipient (pop_empty (discard s (sockets (conns recipient)))) conns

module _ {N : Type 0} (sends : Socket → N → Bool) where
  -- The loop of `broadcast` over the copy of the set: the sockets that took the message, and the
  -- connections that are left. `sends` says whether `send_json` comes back.
  unfoldable pub broadcast_loop :
      Text → N → List Socket → List Socket → Connections → List Socket × Connections
  broadcast_loop recipient n [] sent conns = (sent, conns)
  broadcast_loop recipient n (s ∷ rest) sent conns =
      let delivered = broadcast_loop recipient n rest (sent ++ s ∷ []) conns in
      let failed = broadcast_loop recipient n rest sent (disconnect recipient s conns) in
      if sends s n then delivered else failed

  unfoldable pub broadcast : Text → N → Connections → List Socket × Connections
  unfolding broadcast_loop sockets
  broadcast recipient n conns = broadcast_loop recipient n (sockets (conns recipient)) [] conns

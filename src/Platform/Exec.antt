-- ===== src/Platform/Exec.antt =====
-- A service call: it changes the world, and returns a value or raises. What was written before a
-- raise stays written, until a transaction rolls it back.
use orbit_commerce_platform.Prelude.{
  String, Bool, Option, none, some, List, [], ◌∷◌, ◌++◌, if◌then◌else◌,
}
use orbit_commerce_platform.Catalog.Models.{Uuid, Time}
use orbit_commerce_platform.Common.Exceptions.{Error, Result, ok, err, task_refused}
use orbit_commerce_platform.Common.Kafka
use orbit_commerce_platform.Common.Kafka.{Bus, Payload}
use orbit_commerce_platform.Platform.Env.{Env, Task}

-- The state that a request can see: the rows in its transaction, the clock, the producer with
-- the messages that it delivered, and the tasks that were queued.
pub record World (e : Env) : Type 0 where
  pub rows : e.Rows
  pub now : Time
  pub bus : Bus
  pub tasks : List Task

abbrev pub Exec : Env → Type 0 → Type 0
Exec e A = World e → Result A × World e

abbrev pub pure : {e : Env} {A : Type 0} → A → Exec e A
pure a w = (ok a, w)

abbrev pub raise : {e : Env} {A : Type 0} → Error → Exec e A
raise x w = (err x, w)

abbrev pub gets : {e : Env} {A : Type 0} → (World e → A) → Exec e A
gets f w = (ok (f w), w)

abbrev pub or_raise : {e : Env} {A : Type 0} → Option A → Error → Exec e A
or_raise none x = raise x
or_raise (some a) x = pure a

abbrev pub raise_if : {e : Env} → Bool → Error → Exec e Unit
raise_if c x w = (if c then err x else ok tt, w)

abbrev pub modify_rows : {e : Env} → (e.Rows → e.Rows) → Exec e Unit
modify_rows f w = (ok tt, record w { rows = f w.rows })

-- The rest of a block runs on the value that a call returned; what it raised goes on.
abbrev pub continue : {e : Env} {A B : Type 0} → Result A → (A → Exec e B) → Exec e B
continue (ok a) f w = f a w
continue (err x) f w = (err x, w)

infixl 5 ◌>>=◌ ◌>>◌
abbrev pub ◌>>=◌ : {e : Env} {A B : Type 0} → Exec e A → (A → Exec e B) → Exec e B
◌>>=◌ m f w = let (r, w') = m w in continue r f w'

abbrev pub ◌>>◌ : {e : Env} {A B : Type 0} → Exec e A → Exec e B → Exec e B
m >> k = m >>= λ _. k

-- `@transaction.atomic`: an exception that leaves the block takes the rows back, and nothing
-- else: messages and tasks that left the process are not part of the transaction.
abbrev pub settle : {e : Env} {A : Type 0} → e.Rows → Result A → Exec e A
settle before (ok a) w = (ok a, w)
settle {e} before (err x) w = (err x, record w { rows = e.rollback before w.rows })

abbrev pub atomic : {e : Env} {A : Type 0} → Exec e A → Exec e A
atomic m w = let (r, w') = m w in settle w.rows r w'

-- `publish_event` of common/kafka.py, on the bus of the world.
abbrev pub publish : {e : Env} → String → String → Option Uuid → Payload → Exec e Unit
publish {e} topic event_type key payload w = (
  ok tt,
  record w { bus = Kafka.publish_event e.broker w.now topic event_type payload key w.bus },
)

-- `.delay(...)`
abbrev pub delay : {e : Env} → Task → Exec e Unit
delay {e} t w =
    if e.accepts_task w.now t
    then (ok tt, record w { tasks = w.tasks ++ t ∷ [] })
    else (err task_refused, w)

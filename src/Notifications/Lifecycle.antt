-- ===== src/Notifications/Lifecycle.antt =====
-- The life of the service: `lifespan` of services/notification_service/app/main.py, `start`, `_run`
-- and `stop` of app/kafka/consumer.py, `connect`, `ping` and `disconnect` of app/models/store.py,
-- and the answer of routers/health.py.
pub mod Connected
use mathlib.Core.Path.{subst}
use orbit_commerce_platform.Prelude.{
  ◌⊎◌, inl, inr, ap, ◌≢◌, ◌∙◌, Text, Bool, List, [], ◌∷◌, ◌≡◌, ◌↔◌, true, false, if◌then◌else◌,
  codes, sym, refl,
}

pub data Client : Type 0 where
  no_client created started stopped : Client

-- The task of `_run`: not there, not yet begun, in its loop, in the `finally` while the client is
-- stopped, ended, or ended by that stop before the flag was reset.
pub data Phase : Type 0 where
  no_task scheduled consuming closing ended abandoned : Phase

pub record Consumer : Type 0 where
  pub client : Client
  pub task : Phase
  pub connected : Bool

-- `EventConsumer.__init__`
abbrev pub new_consumer : Consumer
new_consumer = record { client = no_client; task = no_task; connected = false }

unfoldable pub start_consumer : Consumer → Consumer
start_consumer c = record c { client = created; task = scheduled }

-- How `self._consumer.start()` ends in `_run`.
pub data Start : Type 0 where
  connects unreachable raises cancelled_before : Start

-- `_run` up to its loop. A task that is cancelled before it has begun never runs.
unfoldable pub run_start : Start → Consumer → Consumer
run_start connects c = record { client = started; task = consuming; connected = true }
run_start unreachable c = record c { task = ended; connected = false }
run_start raises c = record c { task = ended }
run_start cancelled_before c = record c { task = ended }

-- The loop is left by an exception, a cancellation, or the client's end: the `finally` begins to
-- wait for `self._consumer.stop()`.
unfoldable pub run_leave : Consumer → Consumer
run_leave c = record c { task = closing }

-- How that `stop` ends: it returns, or it raises or the task is cancelled while it waits.
pub data Stop : Type 0 where
  returns breaks : Stop

-- The end of the `finally`, which resets the flag only if the stop returned.
unfoldable pub run_end : Stop → Consumer → Consumer
run_end returns c = record { client = stopped; task = ended; connected = false }
run_end breaks c = record c { task = abandoned }

pub stop_client : Client → Client
stop_client no_client = no_client
stop_client _ = stopped

-- `stop`: the cancellation of the task reaches it at its next `await`, which is another event.
unfoldable pub stop_consumer : Consumer → Consumer
unfolding stop_client
stop_consumer c = record c { client = stop_client c.client }

-- What can happen to the consumer. `begins`, `leaves` and `closes` are the task's own events.
pub data Event : Type 0 where
  starts : Event
  begins : Start → Event
  leaves : Event
  closes : Stop → Event
  stops : Event

begin_task : Start → Phase → Consumer → Consumer
begin_task outcome scheduled c = run_start outcome c
begin_task outcome _ c = c

leave_task : Phase → Consumer → Consumer
leave_task consuming c = run_leave c
leave_task _ c = c

close_task : Stop → Phase → Consumer → Consumer
close_task outcome closing c = run_end outcome c
close_task outcome _ c = c

start_once : Phase → Consumer → Consumer
start_once no_task c = start_consumer c
start_once _ c = c

-- `lifespan` starts the consumer once; the task's events come only where the task is.
unfoldable pub happens : Event → Consumer → Consumer
unfolding begin_task leave_task close_task start_once start_consumer run_start run_leave run_end
    stop_consumer
happens starts c = start_once c.task c
happens (begins outcome) c = begin_task outcome c.task c
happens leaves c = leave_task c.task c
happens (closes outcome) c = close_task outcome c.task c
happens stops c = stop_consumer c

abbrev pub all_happen : List Event → Consumer → Consumer
all_happen [] c = c
all_happen (e ∷ es) c = all_happen es (happens e c)

-- The store's client, and `ping`: `answers` is whether Redis answered without an exception.
pub data Store : Type 0 where
  unopened opened : Store

-- `connect`, and `disconnect`, which closes the connections of a client and keeps the client.
unfoldable connect_store : Store → Store
connect_store store = opened

unfoldable disconnect_store : Store → Store
disconnect_store store = store

unfoldable pub ping : Store → Bool → Bool
ping unopened answers = false
ping opened answers = answers

pub record HealthOut : Type 0 where
  pub status : Text
  pub kafka_connected : Bool
  pub redis_connected : Bool

unfoldable pub health : Store → Bool → Consumer → HealthOut
unfolding ping
health store answers c = record {
  status = if ping store answers then codes "ok" else codes "degraded";
  kafka_connected = c.connected;
  redis_connected = ping store answers;
}

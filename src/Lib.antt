-- ===== src/Lib.antt =====
-- Orbit Commerce Platform: a Django shop (services/core_api), whose orders reserve stock, and a
-- FastAPI service (services/notification_service) that turns the shop's events into notifications.
--
-- A request creates an order under an idempotency key (orders/views.py, common/idempotency.py);
-- `place_order` (orders/services.py) writes the order and its items and reserves the stock of each
-- line (inventory/services.py) in one transaction; saving an order queues tasks (orders/signals.py),
-- and the services publish events (common/kafka.py). An order is then paid or cancelled. The
-- notification service consumes the events, keeps a history for each recipient in Redis, and sends
-- them to the recipient's sockets.
--
-- Files and the code that they model. Paths are below services/core_api/apps, or, for Notifications,
-- below services/notification_service/app.
--   Catalog/Models        catalog/models.py
--   Catalog/Api           catalog/views.py, filters.py and serializers.py: get_queryset, list
--   Inventory/StockItem   inventory/models.py
--   Inventory/Services    inventory/services.py: reserve_stock, release_stock, commit_stock
--   Orders/Models         orders/models.py
--   Orders/Services       orders/services.py and orders/signals.py: place_order, mark_order_paid,
--                         cancel_order, on_order_saved
--   Orders/Concurrent     orders/services.py (place_order) and inventory/services.py
--                         (reserve_stock): requests at the same time, with their row locks
--   Orders/Race           orders/views.py (pay, cancel) and orders/services.py: payments and
--                         cancellations at the same time
--   Orders/Tasks          orders/tasks.py: the tasks that a worker runs
--   Orders/Announced      the way of an order's event from orders/services.py to the customer's list
--   Orders/Api            orders/views.py and orders/serializers.py: create, pay, cancel, validation
--   Orders/Live           orders/tasks.py (broadcast_order_update) and orders/consumers.py
--   Orders/Report         orders/tasks.py: generate_daily_sales_report
--   Users/Managers        users/managers.py and the columns of users/models.py
--   Users/Api             users/views.py, users/serializers.py and full_name of users/models.py
--   Common/Health         common/views.py and common/permissions.py
--   Common/Exceptions     common/exceptions.py
--   Common/Kafka          common/kafka.py
--   Common/Idempotency    common/idempotency.py: begin, complete, abandon
--   Common/Schedule       common/management/commands/seed_beat_schedule.py
--   Common/Middleware     common/middleware.py
--   Schema                the columns: Schema/Declared has those of common/models.py and of the
--                         models.py of users, catalog, inventory and orders, and Schema/Migrations
--                         those of the five migrations
--   Notifications/Store   models/store.py
--   Notifications/Listing routers/notifications.py and schemas/notification.py
--   Notifications/Manager ws/manager.py; Manager/Session also routers/ws.py
--   Notifications/Settings  core/config.py: kafka_topic_list
--   Notifications/Lifecycle main.py, routers/health.py, and the start and stop of kafka/consumer.py
--                         and models/store.py
--   Notifications/Consumer  kafka/consumer.py; Consumer/Events also the JSON of common/kafka.py,
--                         orders/services.py and inventory/services.py; Consumer/Faults is the same
--                         code where Redis raises
--   Platform              the database, the task queue and the transaction that the services use
--   Prelude               numbers, lists, options and texts; Tests holds runs and examples.
-- Beside the models stand their proofs. Inventory/Writes says what one operation writes,
-- Inventory/Reservation what it returns, and Inventory/Invariant what a sequence of them keeps.
-- Platform/Up and Orders/Up keep a producer that is up, through each step of the services.
-- Orders/Counters, Lines, Items and Ledger/Tally count units over the items of orders;
-- Orders/Place, Transitions, Ledger/Balanced and Ledger/Invariant are about the services. Under
-- Orders/Concurrent, Rows compares a step with `reserve_stock`, Isolation and Frames and Serial
-- are about the order of the commits, Lines and Sequential about the loop of `place_order` that
-- makes the same placements one after the other, Oversell about the counters, Ending about the
-- length of a run, Ordered, Progress and Deadlock about requests that wait, and Finish about how
-- all of them end. Common/Idempotency/Laws, Kafka/Outage, Orders/Api/Validation and Laws,
-- Users/Accounts, Users/Api/Laws, Catalog/Api/Listing and Cached, Store/Feed, Listing/Newest and
-- Customers, Manager/Fanout, Lifecycle/Connected, Consumer/Delivery, Consumer/Faults/Stops and
-- Capped, and Orders/Race/Counts and Once are about the file that they stand under or beside.
-- Schema/Plans says in which orders the migrations can be applied, Plans/Tables what is there
-- after each, and Plans/Columns and Migrated compare the end with the models.
--
-- State and errors. A service call is an `Exec e A`: from a `World`, which holds the rows, the
-- time, the producer with what it delivered and the queued tasks, to a value or an exception and
-- the world that is left. `transaction.atomic` takes the rows back when an exception leaves the
-- block, and nothing else: what was published or queued is out. The rows are read and written
-- through the interface `Env`, with the laws of a database in `IsDatabase`; Platform/Memory is a
-- database that satisfies them. The cache framework (`Cache`, and `PageCache` for whole pages),
-- Redis (`Redis`), the client of the broker (`Broker`), the channel layer, `send_json`, the
-- headers of a request (`Headers`) and what applies a migration (`Migrator`) are parameters in
-- the same way, each with an instance in memory where it has laws; `formatted` is how an
-- f-string of Python writes a value that is no text. A step of the consumer comes to whether it
-- returned and to the state that is left, also where it raised.
--
-- Numbers. A key is a number, an amount of money a number of cents, a time a number of seconds.
-- The columns have the range of the database, `count_fits` for quantities and `total_fits` for
-- amounts; the floor of a counter at 0 is that of the source. A text is a list of code points.
-- Every function is a recursion on its data, so no fuel is used.
--
-- Requests at the same time. A call of a service is one step, in which nobody else runs, except
-- where an interleaving is the point: Orders/Concurrent takes the transactions of `place_order`
-- apart into steps, one for each row that is locked and for each that is reserved; `between` is
-- what others do to the cache of idempotency keys; Orders/Race lets others act between the load
-- of an order and the call of the service that pays or cancels it; and Manager/Session has what
-- other tasks do to the connections while a broadcast sends. In Consumer/Faults each `append`
-- has the command that raises, if any.
--
-- Not modelled. Logging, but for the lines of the middleware and of the email task; payments and
-- cancellations that run at the same time as placements; `created_at` of rows other than orders
-- and users; the rendering of messages; the savepoints of a request under ATOMIC_REQUESTS beyond
-- `atomic`; the framework's parsing of a request; the items that `get_object` prefetched, which
-- cancel_order reads at the call instead; the buffer of the producer, since a message counts as
-- delivered once `send` has returned; the catalogue's writes, which the framework derives from
-- the declarations; search, order and pages of a list; names of indexes; the settings that are
-- plain values.
pub mod Prelude
pub mod Common
pub mod Catalog
pub mod Inventory
pub mod Notifications
pub mod Orders
pub mod Platform
pub mod Schema
pub mod Users
mod Tests

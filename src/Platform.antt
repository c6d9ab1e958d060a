-- ===== src/Platform.antt =====
-- What the services run on: the database, the Kafka producer and the Celery queue.
pub mod Up
pub mod Env
pub mod Exec
pub mod Post
pub mod Memory

-- ===== src/Common.antt =====
-- services/core_api/apps/common
pub mod Kafka
pub mod Exceptions
pub mod Idempotency
pub mod Health
pub mod Schedule
pub mod Middleware

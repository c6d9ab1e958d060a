-- ===== src/Orders.antt =====
-- services/core_api/apps/orders
pub mod Models
pub mod Services
pub mod Counters
pub mod Lines
pub mod Place
pub mod Items
pub mod Transitions
pub mod Ledger
pub mod Api
pub mod Live
pub mod Report
pub mod Concurrent
pub mod Race
pub mod Tasks
pub mod Up
pub mod Announced

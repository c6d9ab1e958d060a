-- ===== src/Tests.antt =====
-- Runs on small inputs, and the theorems at inputs that meet their hypotheses.
pub mod Data
mod Inventory
mod Orders
mod Accounts
mod Api
mod Notifications
mod Concurrent
mod Signup
mod Catalog
mod Service
mod Race
mod Sequential
mod Faults
mod Announced
mod Tasks
mod Middleware
mod Schema

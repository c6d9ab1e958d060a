-- ===== src/Inventory.antt =====
-- services/core_api/apps/inventory
pub mod StockItem
pub mod Services
pub mod Writes
pub mod Reservation
pub mod Invariant

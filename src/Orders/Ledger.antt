-- ===== src/Orders/Ledger.antt =====
-- The stock and the orders together, over any sequence of placements, payments of pending orders
-- and cancellations.
pub mod Tally
pub mod Balanced
pub mod Invariant

-- ===== src/Users.antt =====
-- services/core_api/apps/users
pub mod Managers
pub mod Accounts
pub mod Api

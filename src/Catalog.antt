-- ===== src/Catalog.antt =====
-- services/core_api/apps/catalog
pub mod Models
pub mod Api

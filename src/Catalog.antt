-- ===== src/Catalog.antt =====
-- The index of listings that the catalog keeps from events: services/catalog.
pub mod Db
pub mod Indexer
pub mod Licenses
pub mod Cursor
pub mod Feed
mod Tests

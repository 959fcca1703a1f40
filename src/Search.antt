-- ===== src/Search.antt =====
-- The search index that follows the catalog: services/search.
pub mod Errors
pub mod Bulk
pub mod Indexer
mod Tests

-- ===== src/Outbox.antt =====
-- The transactional outbox: pkg/outbox.
pub mod Ident
pub mod Row
pub mod Relay
pub mod Delivery
mod Tests

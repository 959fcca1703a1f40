-- ===== src/Order.antt =====
-- The order service (services/order).
pub mod Domain
pub mod Saga
pub mod Activities
pub mod Placement
pub mod Idempotency
mod Tests

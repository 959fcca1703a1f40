-- ===== src/Redisx.antt =====
-- The idempotency keys and the locks in Redis: pkg/redisx.
pub mod Idempotency
pub mod Lock

-- ===== src/Rpc.antt =====
-- What the services share for calls between them: pkg/grpcx/errors.go and pkg/resilience/retry.go.
pub mod Status
pub mod Retry
mod Tests

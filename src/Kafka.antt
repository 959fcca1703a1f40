-- ===== src/Kafka.antt =====
-- pkg/kafkax: events between the services, their retries and the dead letter queue.
pub mod Record
pub mod Headers
pub mod Failing
pub mod Backoff
pub mod Runtime
pub mod Consumer
pub mod RetryConsumer
pub mod Engine
mod Tests

-- ===== src/Kafka.antt =====
-- kafka: the bounded retry loop, and the consumer of the v2 client.
pub mod Retry
pub mod Consumer
pub mod Client

-- ===== src/Processors.antt =====
-- internal/processors: the outbox consumer and its backoff.
pub mod Backoff
pub mod Events

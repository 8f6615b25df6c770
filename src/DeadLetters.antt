-- ===== src/DeadLetters.antt =====
-- backend/indexer/dlq.py: retries of failed index operations and the dead-letter queue.
pub mod Queue
pub mod Routing
mod Tests

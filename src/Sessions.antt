-- ===== src/Sessions.antt =====
-- backend/session_store: research sessions and their bounded memory.
pub mod Memory
pub mod Store
pub mod Steps
pub mod Access
pub mod Recency
pub mod Unique
pub mod Invariant
pub mod Isolation
pub mod Sweep
pub mod Adding
mod Tests

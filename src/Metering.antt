-- ===== src/Metering.antt =====
-- backend/rate_limiter/metering_buffer.py: the buffer of metering events for database outages.
pub mod Buffer
pub mod Flush
pub mod Level
pub mod Race
mod Tests

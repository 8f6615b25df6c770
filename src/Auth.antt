-- ===== src/Auth.antt =====
-- backend/auth: API keys, their verification and their rotation.
pub mod Keys
pub mod Cache
pub mod Service
pub mod Rotation
pub mod Propagation
pub mod Matches
pub mod Grace
pub mod Failures
mod Tests

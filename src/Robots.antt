-- ===== src/Robots.antt =====
-- backend/crawler/robots.py: rules of robots.txt and their matching.
pub mod Pattern
pub mod Glob
pub mod Greedy
pub mod Paths
pub mod Rules
pub mod Parse
pub mod Allow
pub mod Cache
pub mod Freshness
mod Tests

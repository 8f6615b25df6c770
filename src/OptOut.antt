-- ===== src/OptOut.antt =====
-- backend/crawler/opt_out.py: domains that have opted out of crawling.
pub mod Registry
pub mod Window
mod Tests

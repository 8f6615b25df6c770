-- ===== src/Redaction.antt =====
-- backend/pii_redactor: personal data replaced by placeholders.
pub mod Detect
pub mod Redact
pub mod Splicing
mod Tests

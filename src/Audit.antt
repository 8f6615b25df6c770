-- ===== src/Audit.antt =====
-- backend/audit_log: the audit log, and the deletion of the data of a tenant.
pub mod Tables
pub mod Log
pub mod Deletion
pub mod Selection
pub mod Guards
pub mod Partition
pub mod Executed
pub mod Requested
mod Tests

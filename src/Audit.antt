-- ===== src/Audit.antt =====
-- pkg/audit: what the records of the audit trail say of faults and of cycles.
pub mod Records
pub mod Faults
pub mod Closing
pub mod Cycles
pub mod Logs

-- ===== src/Simian.antt =====
-- pkg/simian: the core data types.
pub mod Record
pub mod Text
pub mod Types
pub mod Targets
pub mod Interfaces

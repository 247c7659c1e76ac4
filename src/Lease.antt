-- ===== src/Lease.antt =====
-- pkg/lease: the registry of active faults, the reaper that clears them, and adoption at start-up.
pub mod Registry
pub mod Reaper
pub mod Adopt

-- ===== src/Executor.antt =====
-- pkg/executor: the only code path that invokes a chaos driver.
pub mod Budget
pub mod Scope
pub mod History
pub mod Safety
pub mod Pods
pub mod Paths
pub mod Compat
pub mod Host
pub mod Probing
pub mod Landing
pub mod Pipeline
pub mod Seeding
pub mod Recorded

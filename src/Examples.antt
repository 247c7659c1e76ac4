-- ===== src/Examples.antt =====
-- Concrete inputs, and what the components do on them.
pub mod Data
pub mod Applying
pub mod Planning
pub mod Auditing
pub mod Drafting
pub mod Leasing
pub mod Setting
pub mod Restoring

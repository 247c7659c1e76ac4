-- ===== src/Loop.antt =====
-- pkg/loop: autonomous mode. What an operator may set, and how a cycle runs a plan.
pub mod Settings
pub mod Cycle
pub mod Health
pub mod Turn

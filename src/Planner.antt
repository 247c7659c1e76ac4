-- ===== src/Planner.antt =====
-- pkg/planner: what makes an attack plan valid, and how one is drafted.
pub mod Dag
pub mod Topology
pub mod Replies
pub mod Generate
pub mod Translate

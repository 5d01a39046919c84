-- ===== src/Governance/Lifecycle.antt =====
-- How the status of a decision moves, over any sequence of requests.
pub mod Rows
pub mod Frame
pub mod Updates
pub mod Finalized
pub mod Evolution

-- ===== src/Governance/Trail.antt =====
-- What every request of the governance engine does to the audit trail.
pub mod Append
pub mod Record
pub mod Services
pub mod Growth
pub mod Integrity

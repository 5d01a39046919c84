-- ===== src/Governance/Repository.antt =====
-- services/governance-engine/src/governance_engine/repository/postgres.py
pub mod Decisions
pub mod Approvals
pub mod Vetoes
pub mod Events
pub mod Roles

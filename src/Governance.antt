-- ===== src/Governance.antt =====
-- services/governance-engine: the decision workflow, its votes, vetoes, roles and audit trail.
pub mod Session
pub mod Construct
pub mod Repository
pub mod AuditService
pub mod DecisionService
pub mod ApprovalService
pub mod VetoService
pub mod RoleService
pub mod Respects
pub mod Api
pub mod Requests
pub mod Trail
pub mod Lifecycle
pub mod Consent
pub mod Vetoing
pub mod Uniqueness

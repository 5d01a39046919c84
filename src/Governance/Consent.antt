-- ===== src/Governance/Consent.antt =====
-- Which decisions a request approves, and on whose votes.
pub mod Settled
pub mod Unanimity
pub mod Frame
pub mod Voting
pub mod Cast
pub mod Completion
pub mod Rejection
pub mod Ballot
pub mod Others
pub mod Approval

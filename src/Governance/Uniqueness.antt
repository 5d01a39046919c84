-- ===== src/Governance/Uniqueness.antt =====
-- How many roles a user has in a domain, and how many votes on a decision.
pub mod Counting
pub mod Assignments
pub mod Untouching
pub mod Votes
pub mod Ballots

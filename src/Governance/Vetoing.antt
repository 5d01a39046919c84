-- ===== src/Governance/Vetoing.antt =====
-- What a veto and its override ask for and do.
pub mod Outranking
pub mod Exercised

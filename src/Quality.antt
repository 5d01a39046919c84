-- ===== src/Quality.antt =====
-- Data quality: odg_core/quality, and the engine and routes of services/quality-gate.
pub mod Fractions
pub mod Dimensions
pub mod Sla
pub mod Reviewer
pub mod Engine
pub mod Counting
pub mod Scores
pub mod Reports

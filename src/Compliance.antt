-- ===== src/Compliance.antt =====
-- libs/python/odg-core/src/odg_core/compliance: the checkers of the frameworks and their registry.
pub mod Protocol
pub mod Lgpd
pub mod Gdpr
pub mod Sox
pub mod NistAiRmf
pub mod Iso42001
pub mod EuAiAct
pub mod Registry
pub mod Requirements
pub mod Routing
pub mod Dama
pub mod DamaCoverage
pub mod AiRisk
pub mod Default
pub mod Bounds
pub mod DamaPassing
pub mod Registered
pub mod RiskLevels

-- ===== src/Schema.antt =====
-- libs/python/odg-core/src/odg_core/migrations: the versions of the database schema.
pub mod Operations
pub mod Initial
pub mod QualityReports
pub mod QualitySlas
pub mod DataContracts
pub mod ComplianceReports
pub mod ModelCards
pub mod MetadataCatalog
pub mod Versions
pub mod Undone

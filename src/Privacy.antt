-- ===== src/Privacy.antt =====
-- libs/python/odg-core/src/odg_core/privacy: what a classification and a jurisdiction ask for.
pub mod Classification
pub mod Escalation
pub mod Masking
pub mod Slices
pub mod Masked
pub mod Maskers
pub mod Detector
pub mod Emails
pub mod Detected

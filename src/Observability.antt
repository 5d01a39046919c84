-- ===== src/Observability.antt =====
-- libs/python/odg-core/src/odg_core/observability: what is observed of datasets.
pub mod Drift
pub mod Differences

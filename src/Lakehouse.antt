-- ===== src/Lakehouse.antt =====
-- services/lakehouse-agent: promotion of datasets across the medallion layers.
pub mod Buckets
pub mod Promotion
pub mod Steps
pub mod Effects

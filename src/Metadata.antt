-- ===== src/Metadata.antt =====
-- libs/python/odg-core/src/odg_core/metadata: the exchange of dataset metadata with DataHub.
pub mod Split
pub mod Dataset
pub mod DataHub
pub mod RoundTrip
pub mod OpenLineage

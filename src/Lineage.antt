-- ===== src/Lineage.antt =====
-- libs/python/odg-core/src/odg_core/lineage: OpenLineage events and their edges in DataHub.
pub mod Emitter
pub mod Consumer
pub mod Edges

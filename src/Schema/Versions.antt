-- ===== src/Schema/Versions.antt =====
-- The chain of the migrations.
use open_data_gov.Prelude.{List, [], ◌∷◌}
use open_data_gov.Schema.Operations.{Migration}
use open_data_gov.Schema.QualityReports.{quality_reports_migration}
use open_data_gov.Schema.QualitySlas.{quality_slas_migration}
use open_data_gov.Schema.DataContracts.{data_contracts_migration}
use open_data_gov.Schema.ComplianceReports.{compliance_reports_migration}
use open_data_gov.Schema.ModelCards.{model_cards_migration}
use open_data_gov.Schema.MetadataCatalog.{metadata_catalog_migration}

-- the migrations after the initial one, each after the one that it revises
abbrev pub later_migrations : List Migration
later_migrations =
    quality_reports_migration ∷ quality_slas_migration ∷ data_contracts_migration
    ∷ compliance_reports_migration ∷ model_cards_migration ∷ metadata_catalog_migration ∷ []

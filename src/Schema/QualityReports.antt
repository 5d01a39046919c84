-- ===== src/Schema/QualityReports.antt =====
-- libs/python/odg-core/src/odg_core/migrations/versions/002_quality_reports.py
use open_data_gov.Prelude.{true, false, List, [], ◌∷◌, some}
use open_data_gov.Schema.Operations.{ColumnType, ColumnOption, sa_column, Operation, Migration}

abbrev pub quality_reports_upgrade : List Operation
quality_reports_upgrade =
    Operation.create_table "quality_reports" (
      sa_column "id" ColumnType.uuid (ColumnOption.primary_key ∷ [])
      ∷ sa_column "dataset_id" (ColumnType.string 200) (ColumnOption.nullable false ∷ [])
      ∷ sa_column "domain_id" (ColumnType.string 100) (ColumnOption.nullable false ∷ [])
      ∷ sa_column "layer" (ColumnType.string 20) (ColumnOption.nullable false ∷ [])
      ∷ sa_column "suite_name" (ColumnType.string 200) (ColumnOption.nullable false ∷ [])
      ∷ sa_column "dq_score" ColumnType.float (ColumnOption.nullable false ∷ [])
      ∷ sa_column "dimension_scores" ColumnType.jsonb (ColumnOption.server_default "{}" ∷ [])
      ∷ sa_column "expectations_passed" ColumnType.integer
          (ColumnOption.nullable false ∷ ColumnOption.server_default "0" ∷ [])
      ∷ sa_column "expectations_failed" ColumnType.integer
          (ColumnOption.nullable false ∷ ColumnOption.server_default "0" ∷ [])
      ∷ sa_column "expectations_total" ColumnType.integer
          (ColumnOption.nullable false ∷ ColumnOption.server_default "0" ∷ [])
      ∷ sa_column "report_details" ColumnType.jsonb (ColumnOption.server_default "{}" ∷ [])
      ∷ sa_column "created_at" ColumnType.timestamp (ColumnOption.server_now ∷ [])
      ∷ sa_column "triggered_by" ColumnType.uuid
          (ColumnOption.foreign_key "governance_decisions.id" ∷ ColumnOption.nullable true ∷ [])
      ∷ [])
    ∷ Operation.create_index "ix_quality_reports_dataset_id" "quality_reports" ("dataset_id" ∷ [])
        false
    ∷ Operation.create_index "ix_quality_reports_domain_id" "quality_reports" ("domain_id" ∷ [])
        false
    ∷ Operation.create_index "ix_quality_reports_dataset_layer" "quality_reports"
        ("dataset_id" ∷ "layer" ∷ []) false
    ∷ []

abbrev pub quality_reports_downgrade : List Operation
quality_reports_downgrade =
    Operation.drop_index "ix_quality_reports_dataset_layer"
    ∷ Operation.drop_index "ix_quality_reports_domain_id"
    ∷ Operation.drop_index "ix_quality_reports_dataset_id"
    ∷ Operation.drop_table "quality_reports"
    ∷ []

abbrev pub quality_reports_migration : Migration
quality_reports_migration = record {
  revision = "002";
  down_revision = some "001";
  upgrade = quality_reports_upgrade;
  downgrade = quality_reports_downgrade;
}

-- ===== src/Schema/ComplianceReports.antt =====
-- libs/python/odg-core/src/odg_core/migrations/versions/005_compliance_reports.py
use open_data_gov.Prelude.{true, false, List, [], ◌∷◌, some}
use open_data_gov.Schema.Operations.{ColumnType, ColumnOption, sa_column, Operation, Migration}

abbrev pub compliance_reports_upgrade : List Operation
compliance_reports_upgrade =
    Operation.create_table "compliance_reports" (
      sa_column "id" ColumnType.uuid (ColumnOption.primary_key ∷ [])
      ∷ sa_column "framework" (ColumnType.string 50) (ColumnOption.nullable false ∷ [])
      ∷ sa_column "jurisdiction" (ColumnType.string 20) (ColumnOption.nullable true ∷ [])
      ∷ sa_column "passed" ColumnType.boolean (ColumnOption.nullable false ∷ [])
      ∷ sa_column "score" ColumnType.float (ColumnOption.nullable false ∷ [])
      ∷ sa_column "metadata" ColumnType.jsonb (ColumnOption.server_default "{}" ∷ [])
      ∷ sa_column "created_at" ColumnType.timestamp (ColumnOption.server_now ∷ [])
      ∷ sa_column "created_by" (ColumnType.string 200) (ColumnOption.nullable true ∷ [])
      ∷ [])
    ∷ Operation.create_index "ix_compliance_reports_framework" "compliance_reports"
        ("framework" ∷ []) false
    ∷ Operation.create_table "compliance_findings" (
        sa_column "id" ColumnType.uuid (ColumnOption.primary_key ∷ [])
        ∷ sa_column "report_id" ColumnType.uuid (
            ColumnOption.foreign_key_cascade "compliance_reports.id"
            ∷ ColumnOption.nullable false
            ∷ [])
        ∷ sa_column "rule_id" (ColumnType.string 100) (ColumnOption.nullable false ∷ [])
        ∷ sa_column "severity" (ColumnType.string 20) (ColumnOption.nullable false ∷ [])
        ∷ sa_column "description" ColumnType.text (ColumnOption.nullable false ∷ [])
        ∷ sa_column "recommendation" ColumnType.text (ColumnOption.nullable false ∷ [])
        ∷ [])
    ∷ Operation.create_index "ix_compliance_findings_report_id" "compliance_findings"
        ("report_id" ∷ []) false
    ∷ Operation.create_index "ix_compliance_findings_severity" "compliance_findings"
        ("severity" ∷ []) false
    ∷ []

abbrev pub compliance_reports_downgrade : List Operation
compliance_reports_downgrade =
    Operation.drop_index "ix_compliance_findings_severity"
    ∷ Operation.drop_index "ix_compliance_findings_report_id"
    ∷ Operation.drop_table "compliance_findings"
    ∷ Operation.drop_index "ix_compliance_reports_framework"
    ∷ Operation.drop_table "compliance_reports"
    ∷ []

abbrev pub compliance_reports_migration : Migration
compliance_reports_migration = record {
  revision = "005";
  down_revision = some "004";
  upgrade = compliance_reports_upgrade;
  downgrade = compliance_reports_downgrade;
}

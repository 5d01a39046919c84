-- ===== src/Schema/QualitySlas.antt =====
-- libs/python/odg-core/src/odg_core/migrations/versions/003_quality_slas.py
use open_data_gov.Prelude.{true, false, List, [], ◌∷◌, some}
use open_data_gov.Schema.Operations.{ColumnType, ColumnOption, sa_column, Operation, Migration}

abbrev pub quality_slas_upgrade : List Operation
quality_slas_upgrade =
    Operation.create_table "quality_slas" (
      sa_column "id" ColumnType.uuid (ColumnOption.primary_key ∷ [])
      ∷ sa_column "dataset_id" (ColumnType.string 200) (ColumnOption.nullable false ∷ [])
      ∷ sa_column "domain_id" (ColumnType.string 100) (ColumnOption.nullable false ∷ [])
      ∷ sa_column "dimension" (ColumnType.string 30) (ColumnOption.nullable false ∷ [])
      ∷ sa_column "threshold" ColumnType.float (ColumnOption.nullable false ∷ [])
      ∷ sa_column "owner_id" (ColumnType.string 200) (ColumnOption.nullable false ∷ [])
      ∷ sa_column "review_interval_days" ColumnType.integer
          (ColumnOption.nullable false ∷ ColumnOption.server_default "90" ∷ [])
      ∷ sa_column "last_reviewed_at" ColumnType.timestamp (ColumnOption.nullable true ∷ [])
      ∷ [])
    ∷ Operation.create_index "ix_quality_slas_dataset_dim" "quality_slas"
        ("dataset_id" ∷ "dimension" ∷ []) true
    ∷ []

abbrev pub quality_slas_downgrade : List Operation
quality_slas_downgrade =
    Operation.drop_index "ix_quality_slas_dataset_dim" ∷ Operation.drop_table "quality_slas" ∷ []

abbrev pub quality_slas_migration : Migration
quality_slas_migration = record {
  revision = "003";
  down_revision = some "002";
  upgrade = quality_slas_upgrade;
  downgrade = quality_slas_downgrade;
}

-- ===== src/Schema/MetadataCatalog.antt =====
-- libs/python/odg-core/src/odg_core/migrations/versions/007_metadata_catalog.py
use open_data_gov.Prelude.{true, false, List, [], ◌∷◌, some}
use open_data_gov.Schema.Operations.{ColumnType, ColumnOption, sa_column, Operation, Migration}

abbrev pub metadata_catalog_upgrade : List Operation
metadata_catalog_upgrade =
    Operation.create_table "dataset_metadata" (
      sa_column "id" ColumnType.uuid (ColumnOption.primary_key ∷ [])
      ∷ sa_column "dataset_id" (ColumnType.string 200)
          (ColumnOption.nullable false ∷ ColumnOption.is_unique ∷ [])
      ∷ sa_column "name" (ColumnType.string 200) (ColumnOption.nullable false ∷ [])
      ∷ sa_column "domain" (ColumnType.string 100) (ColumnOption.nullable true ∷ [])
      ∷ sa_column "layer" (ColumnType.string 20) (ColumnOption.nullable true ∷ [])
      ∷ sa_column "owner" (ColumnType.string 200) (ColumnOption.nullable true ∷ [])
      ∷ sa_column "classification" (ColumnType.string 20) (ColumnOption.nullable true ∷ [])
      ∷ sa_column "jurisdiction" (ColumnType.string 20) (ColumnOption.nullable true ∷ [])
      ∷ sa_column "schema_definition" ColumnType.jsonb (ColumnOption.server_default "{}" ∷ [])
      ∷ sa_column "quality_score" ColumnType.float (ColumnOption.nullable true ∷ [])
      ∷ sa_column "tags" ColumnType.jsonb (ColumnOption.server_default "[]" ∷ [])
      ∷ sa_column "custom_properties" ColumnType.jsonb (ColumnOption.server_default "{}" ∷ [])
      ∷ sa_column "created_at" ColumnType.timestamp (ColumnOption.server_now ∷ [])
      ∷ sa_column "updated_at" ColumnType.timestamp
          (ColumnOption.server_now ∷ ColumnOption.update_now ∷ [])
      ∷ [])
    ∷ Operation.create_index "ix_dataset_metadata_domain" "dataset_metadata" ("domain" ∷ []) false
    ∷ Operation.create_index "ix_dataset_metadata_layer" "dataset_metadata" ("layer" ∷ []) false
    ∷ Operation.create_index "ix_dataset_metadata_classification" "dataset_metadata"
        ("classification" ∷ []) false
    ∷ Operation.create_table "lineage_edges" (
        sa_column "id" ColumnType.uuid (ColumnOption.primary_key ∷ [])
        ∷ sa_column "source_dataset_id" (ColumnType.string 200) (ColumnOption.nullable false ∷ [])
        ∷ sa_column "target_dataset_id" (ColumnType.string 200) (ColumnOption.nullable false ∷ [])
        ∷ sa_column "job_name" (ColumnType.string 200) (ColumnOption.nullable false ∷ [])
        ∷ sa_column "job_namespace" (ColumnType.string 200) (ColumnOption.server_default "" ∷ [])
        ∷ sa_column "event_type" (ColumnType.string 50) (ColumnOption.nullable false ∷ [])
        ∷ sa_column "facets" ColumnType.jsonb (ColumnOption.server_default "{}" ∷ [])
        ∷ sa_column "created_at" ColumnType.timestamp (ColumnOption.server_now ∷ [])
        ∷ [])
    ∷ Operation.create_index "ix_lineage_edges_source" "lineage_edges" ("source_dataset_id" ∷ [])
        false
    ∷ Operation.create_index "ix_lineage_edges_target" "lineage_edges" ("target_dataset_id" ∷ [])
        false
    ∷ Operation.create_index "ix_lineage_edges_job" "lineage_edges" ("job_name" ∷ []) false
    ∷ []

abbrev pub metadata_catalog_downgrade : List Operation
metadata_catalog_downgrade =
    Operation.drop_index "ix_lineage_edges_job"
    ∷ Operation.drop_index "ix_lineage_edges_target"
    ∷ Operation.drop_index "ix_lineage_edges_source"
    ∷ Operation.drop_table "lineage_edges"
    ∷ Operation.drop_index "ix_dataset_metadata_classification"
    ∷ Operation.drop_index "ix_dataset_metadata_layer"
    ∷ Operation.drop_index "ix_dataset_metadata_domain"
    ∷ Operation.drop_table "dataset_metadata"
    ∷ []

abbrev pub metadata_catalog_migration : Migration
metadata_catalog_migration = record {
  revision = "007";
  down_revision = some "006";
  upgrade = metadata_catalog_upgrade;
  downgrade = metadata_catalog_downgrade;
}

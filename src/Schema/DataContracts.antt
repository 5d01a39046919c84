-- ===== src/Schema/DataContracts.antt =====
-- libs/python/odg-core/src/odg_core/migrations/versions/004_data_contracts.py
use open_data_gov.Prelude.{true, false, List, [], ◌∷◌, some}
use open_data_gov.Schema.Operations.{ColumnType, ColumnOption, sa_column, Operation, Migration}

abbrev pub data_contracts_upgrade : List Operation
data_contracts_upgrade =
    Operation.create_table "data_contracts" (
      sa_column "id" ColumnType.uuid (ColumnOption.primary_key ∷ [])
      ∷ sa_column "name" (ColumnType.string 200)
          (ColumnOption.nullable false ∷ ColumnOption.is_unique ∷ [])
      ∷ sa_column "dataset_id" (ColumnType.string 200) (ColumnOption.nullable false ∷ [])
      ∷ sa_column "domain_id" (ColumnType.string 100) (ColumnOption.nullable false ∷ [])
      ∷ sa_column "owner_id" (ColumnType.string 200) (ColumnOption.nullable false ∷ [])
      ∷ sa_column "schema_definition" ColumnType.jsonb (ColumnOption.nullable false ∷ [])
      ∷ sa_column "sla_definition" ColumnType.jsonb (ColumnOption.server_default "{}" ∷ [])
      ∷ sa_column "jurisdiction" (ColumnType.string 20) (ColumnOption.nullable true ∷ [])
      ∷ sa_column "version" ColumnType.integer
          (ColumnOption.nullable false ∷ ColumnOption.server_default "1" ∷ [])
      ∷ sa_column "is_active" ColumnType.boolean (ColumnOption.server_default "true" ∷ [])
      ∷ sa_column "created_at" ColumnType.timestamp (ColumnOption.server_now ∷ [])
      ∷ sa_column "updated_at" ColumnType.timestamp (ColumnOption.server_now ∷ [])
      ∷ [])
    ∷ Operation.create_index "ix_data_contracts_dataset_id" "data_contracts" ("dataset_id" ∷ [])
        false
    ∷ Operation.create_index "ix_data_contracts_domain" "data_contracts" ("domain_id" ∷ []) false
    ∷ Operation.create_table "contract_versions" (
        sa_column "id" ColumnType.uuid (ColumnOption.primary_key ∷ [])
        ∷ sa_column "contract_id" ColumnType.uuid
            (ColumnOption.foreign_key "data_contracts.id" ∷ ColumnOption.nullable false ∷ [])
        ∷ sa_column "version" ColumnType.integer (ColumnOption.nullable false ∷ [])
        ∷ sa_column "schema_definition" ColumnType.jsonb (ColumnOption.nullable false ∷ [])
        ∷ sa_column "change_type" (ColumnType.string 30) (ColumnOption.nullable false ∷ [])
        ∷ sa_column "changed_by" (ColumnType.string 200) (ColumnOption.nullable false ∷ [])
        ∷ sa_column "created_at" ColumnType.timestamp (ColumnOption.server_now ∷ [])
        ∷ [])
    ∷ Operation.create_index "ix_contract_versions_contract_id" "contract_versions"
        ("contract_id" ∷ []) false
    ∷ []

abbrev pub data_contracts_downgrade : List Operation
data_contracts_downgrade =
    Operation.drop_index "ix_contract_versions_contract_id"
    ∷ Operation.drop_table "contract_versions"
    ∷ Operation.drop_index "ix_data_contracts_domain"
    ∷ Operation.drop_index "ix_data_contracts_dataset_id"
    ∷ Operation.drop_table "data_contracts"
    ∷ []

abbrev pub data_contracts_migration : Migration
data_contracts_migration = record {
  revision = "004";
  down_revision = some "003";
  upgrade = data_contracts_upgrade;
  downgrade = data_contracts_downgrade;
}

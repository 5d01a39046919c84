-- ===== src/Schema/ModelCards.antt =====
-- libs/python/odg-core/src/odg_core/migrations/versions/006_model_cards.py
use open_data_gov.Prelude.{true, false, List, [], ◌∷◌, some}
use open_data_gov.Schema.Operations.{ColumnType, ColumnOption, sa_column, Operation, Migration}

abbrev pub model_cards_upgrade : List Operation
model_cards_upgrade =
    Operation.create_table "model_cards" (
      sa_column "id" ColumnType.uuid (ColumnOption.primary_key ∷ [])
      ∷ sa_column "model_name" (ColumnType.string 200)
          (ColumnOption.nullable false ∷ ColumnOption.is_unique ∷ [])
      ∷ sa_column "model_version" (ColumnType.string 50) (ColumnOption.nullable false ∷ [])
      ∷ sa_column "owner" (ColumnType.string 200) (ColumnOption.nullable false ∷ [])
      ∷ sa_column "description" ColumnType.text (ColumnOption.server_default "" ∷ [])
      ∷ sa_column "risk_level" (ColumnType.string 20)
          (ColumnOption.nullable false ∷ ColumnOption.server_default "minimal" ∷ [])
      ∷ sa_column "expert_capability" (ColumnType.string 100) (ColumnOption.nullable true ∷ [])
      ∷ sa_column "model_type" (ColumnType.string 100) (ColumnOption.server_default "" ∷ [])
      ∷ sa_column "metrics" ColumnType.jsonb (ColumnOption.server_default "[]" ∷ [])
      ∷ sa_column "ethics" ColumnType.jsonb (ColumnOption.server_default "{}" ∷ [])
      ∷ sa_column "limitations" ColumnType.jsonb (ColumnOption.server_default "[]" ∷ [])
      ∷ sa_column "regulatory_requirements" ColumnType.jsonb (ColumnOption.server_default "[]" ∷ [])
      ∷ sa_column "created_at" ColumnType.timestamp (ColumnOption.server_now ∷ [])
      ∷ sa_column "last_reviewed_at" ColumnType.timestamp (ColumnOption.nullable true ∷ [])
      ∷ sa_column "approved_by" (ColumnType.string 200) (ColumnOption.nullable true ∷ [])
      ∷ [])
    ∷ Operation.create_index "ix_model_cards_risk_level" "model_cards" ("risk_level" ∷ []) false
    ∷ []

abbrev pub model_cards_downgrade : List Operation
model_cards_downgrade =
    Operation.drop_index "ix_model_cards_risk_level" ∷ Operation.drop_table "model_cards" ∷ []

abbrev pub model_cards_migration : Migration
model_cards_migration = record {
  revision = "006";
  down_revision = some "005";
  upgrade = model_cards_upgrade;
  downgrade = model_cards_downgrade;
}

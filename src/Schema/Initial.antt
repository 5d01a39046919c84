-- ===== src/Schema/Initial.antt =====
-- libs/python/odg-core/src/odg_core/migrations/versions/001_initial_schema.py
use open_data_gov.Prelude.{true, false, List, [], ◌∷◌, none}
use open_data_gov.Schema.Operations.{ColumnType, ColumnOption, sa_column, Operation, Migration}

abbrev pub initial_upgrade : List Operation
initial_upgrade =
    Operation.create_table "governance_decisions" (
      sa_column "id" ColumnType.uuid (ColumnOption.primary_key ∷ [])
      ∷ sa_column "decision_type" (ColumnType.string 50) (ColumnOption.nullable false ∷ [])
      ∷ sa_column "title" (ColumnType.string 500) (ColumnOption.nullable false ∷ [])
      ∷ sa_column "description" ColumnType.text (ColumnOption.server_default "" ∷ [])
      ∷ sa_column "status" (ColumnType.string 30)
          (ColumnOption.nullable false ∷ ColumnOption.server_default "pending" ∷ [])
      ∷ sa_column "domain_id" (ColumnType.string 100) (ColumnOption.nullable false ∷ [])
      ∷ sa_column "created_by" (ColumnType.string 200) (ColumnOption.nullable false ∷ [])
      ∷ sa_column "created_at" ColumnType.timestamp (ColumnOption.server_now ∷ [])
      ∷ sa_column "updated_at" ColumnType.timestamp (ColumnOption.server_now ∷ [])
      ∷ sa_column "metadata" ColumnType.jsonb (ColumnOption.server_default "{}" ∷ [])
      ∷ sa_column "source_layer" (ColumnType.string 20) []
      ∷ sa_column "target_layer" (ColumnType.string 20) []
      ∷ sa_column "data_classification" (ColumnType.string 20) []
      ∷ [])
    ∷ Operation.create_index "ix_decisions_domain_id" "governance_decisions" ("domain_id" ∷ [])
        false
    ∷ Operation.create_index "ix_decisions_status_domain" "governance_decisions"
        ("status" ∷ "domain_id" ∷ []) false
    ∷ Operation.create_table "approval_records" (
        sa_column "id" ColumnType.uuid (ColumnOption.primary_key ∷ [])
        ∷ sa_column "decision_id" ColumnType.uuid
            (ColumnOption.foreign_key "governance_decisions.id" ∷ ColumnOption.nullable false ∷ [])
        ∷ sa_column "voter_id" (ColumnType.string 200) (ColumnOption.nullable false ∷ [])
        ∷ sa_column "voter_role" (ColumnType.string 20) (ColumnOption.nullable false ∷ [])
        ∷ sa_column "vote" (ColumnType.string 10) (ColumnOption.nullable false ∷ [])
        ∷ sa_column "comment" ColumnType.text (ColumnOption.server_default "" ∷ [])
        ∷ sa_column "voted_at" ColumnType.timestamp (ColumnOption.server_now ∷ [])
        ∷ [])
    ∷ Operation.create_index "ix_approval_decision_id" "approval_records" ("decision_id" ∷ []) false
    ∷ Operation.create_table "veto_records" (
        sa_column "id" ColumnType.uuid (ColumnOption.primary_key ∷ [])
        ∷ sa_column "decision_id" ColumnType.uuid
            (ColumnOption.foreign_key "governance_decisions.id" ∷ ColumnOption.nullable false ∷ [])
        ∷ sa_column "vetoed_by" (ColumnType.string 200) (ColumnOption.nullable false ∷ [])
        ∷ sa_column "vetoed_by_role" (ColumnType.string 20) (ColumnOption.nullable false ∷ [])
        ∷ sa_column "reason" ColumnType.text (ColumnOption.nullable false ∷ [])
        ∷ sa_column "status" (ColumnType.string 20)
            (ColumnOption.nullable false ∷ ColumnOption.server_default "active" ∷ [])
        ∷ sa_column "vetoed_at" ColumnType.timestamp (ColumnOption.server_now ∷ [])
        ∷ sa_column "expires_at" ColumnType.timestamp []
        ∷ sa_column "overridden_by" (ColumnType.string 200) []
        ∷ sa_column "overridden_at" ColumnType.timestamp []
        ∷ [])
    ∷ Operation.create_index "ix_veto_decision_id" "veto_records" ("decision_id" ∷ []) false
    ∷ Operation.create_table "audit_events" (
        sa_column "id" ColumnType.uuid (ColumnOption.primary_key ∷ [])
        ∷ sa_column "event_type" (ColumnType.string 50) (ColumnOption.nullable false ∷ [])
        ∷ sa_column "entity_type" (ColumnType.string 100) (ColumnOption.nullable false ∷ [])
        ∷ sa_column "entity_id" (ColumnType.string 200) (ColumnOption.nullable false ∷ [])
        ∷ sa_column "actor_id" (ColumnType.string 200) (ColumnOption.nullable false ∷ [])
        ∷ sa_column "description" ColumnType.text (ColumnOption.server_default "" ∷ [])
        ∷ sa_column "details" ColumnType.jsonb (ColumnOption.server_default "{}" ∷ [])
        ∷ sa_column "occurred_at" ColumnType.timestamp (ColumnOption.server_now ∷ [])
        ∷ sa_column "previous_hash" (ColumnType.string 64) (ColumnOption.nullable false ∷ [])
        ∷ sa_column "event_hash" (ColumnType.string 64) (ColumnOption.nullable false ∷ [])
        ∷ [])
    ∷ Operation.create_index "ix_audit_event_type" "audit_events" ("event_type" ∷ []) false
    ∷ Operation.create_index "ix_audit_entity_id" "audit_events" ("entity_id" ∷ []) false
    ∷ Operation.create_index "ix_audit_actor_id" "audit_events" ("actor_id" ∷ []) false
    ∷ Operation.create_index "ix_audit_events_occurred" "audit_events" ("occurred_at" ∷ []) false
    ∷ Operation.execute
        "CREATE OR REPLACE FUNCTION prevent_audit_mutation() RETURNS TRIGGER AS $$ BEGIN RAISE EXCEPTION 'audit_events table is append-only: % operations are not allowed', TG_OP; RETURN NULL; END; $$ LANGUAGE plpgsql;"
    ∷ Operation.execute
        "CREATE TRIGGER trg_audit_events_immutable BEFORE UPDATE OR DELETE ON audit_events FOR EACH ROW EXECUTE FUNCTION prevent_audit_mutation();"
    ∷ Operation.create_table "raci_assignments" (
        sa_column "id" ColumnType.uuid (ColumnOption.primary_key ∷ [])
        ∷ sa_column "user_id" (ColumnType.string 200) (ColumnOption.nullable false ∷ [])
        ∷ sa_column "domain_id" (ColumnType.string 100) (ColumnOption.nullable false ∷ [])
        ∷ sa_column "role" (ColumnType.string 20) (ColumnOption.nullable false ∷ [])
        ∷ sa_column "assigned_at" ColumnType.timestamp (ColumnOption.server_now ∷ [])
        ∷ sa_column "assigned_by" (ColumnType.string 200) (ColumnOption.nullable false ∷ [])
        ∷ [])
    ∷ Operation.create_index "ix_raci_user_id" "raci_assignments" ("user_id" ∷ []) false
    ∷ Operation.create_index "ix_raci_domain_id" "raci_assignments" ("domain_id" ∷ []) false
    ∷ Operation.create_index "ix_raci_user_domain" "raci_assignments" ("user_id" ∷ "domain_id" ∷ [])
        true
    ∷ Operation.create_table "expert_registry" (
        sa_column "id" ColumnType.uuid (ColumnOption.primary_key ∷ [])
        ∷ sa_column "name" (ColumnType.string 200)
            (ColumnOption.nullable false ∷ ColumnOption.is_unique ∷ [])
        ∷ sa_column "description" ColumnType.text (ColumnOption.server_default "" ∷ [])
        ∷ sa_column "endpoint" (ColumnType.string 500) (ColumnOption.nullable false ∷ [])
        ∷ sa_column "capabilities" ColumnType.jsonb (ColumnOption.server_default "[]" ∷ [])
        ∷ sa_column "is_active" ColumnType.boolean (ColumnOption.server_default "false" ∷ [])
        ∷ sa_column "registered_at" ColumnType.timestamp (ColumnOption.server_now ∷ [])
        ∷ sa_column "approved_decision_id" ColumnType.uuid
            (ColumnOption.foreign_key "governance_decisions.id" ∷ [])
        ∷ [])
    ∷ []

abbrev pub initial_downgrade : List Operation
initial_downgrade =
    Operation.execute "DROP TRIGGER IF EXISTS trg_audit_events_immutable ON audit_events"
    ∷ Operation.execute "DROP FUNCTION IF EXISTS prevent_audit_mutation()"
    ∷ Operation.drop_table "expert_registry"
    ∷ Operation.drop_table "raci_assignments"
    ∷ Operation.drop_table "audit_events"
    ∷ Operation.drop_table "veto_records"
    ∷ Operation.drop_table "approval_records"
    ∷ Operation.drop_table "governance_decisions"
    ∷ []

abbrev pub initial_migration : Migration
initial_migration = record {
  revision = "001";
  down_revision = none;
  upgrade = initial_upgrade;
  downgrade = initial_downgrade;
}

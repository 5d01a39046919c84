-- ===== src/Governance/AuditService.antt =====
-- services/governance-engine/src/governance_engine/domain/audit_service.py
use open_data_gov.Prelude.{
  ℕ, String, Bool, List, Option, none, some, ◌==◌, string_eq, if◌then◌else◌,
}
use open_data_gov.Prelude.Exec.{pure, ◌>>=◌}
use open_data_gov.Enums.Governance.{AuditEventType}
use open_data_gov.Runtime.{Runtime, Details}
use open_data_gov.Audit.{AuditEvent, genesis_hash, seal, verify_chain}
use open_data_gov.Governance.Session.{Action}
use open_data_gov.Governance.Construct.{new_audit_event}
use open_data_gov.Governance.Repository.Events

-- `last_hash or GENESIS_HASH`
unfoldable pub or_genesis : Option String → String
or_genesis none = genesis_hash
or_genesis (some h) = if h == "" then genesis_hash else h

module _ ⦃rt : Runtime⦄ where
  unfoldable pub record_event :
      AuditEventType
      → (entity_type entity_id actor_id description : String) → Details
      → Action AuditEvent
  record_event event_type entity_type entity_id actor_id description details = do
    last_hash ← Events.get_last_hash
    event ←
        new_audit_event event_type entity_type entity_id actor_id description details
          (or_genesis last_hash)
    Events.create (seal event)

  unfoldable pub verify_integrity : ℕ → Action Bool
  verify_integrity limit = do events ← Events.get_chain limit; pure (verify_chain events)

unfoldable pub get_events_for_entity : String → ℕ → Action (List AuditEvent)
get_events_for_entity entity_id limit = Events.list_by_entity entity_id limit

unfoldable pub get_events : Option AuditEventType → ℕ → ℕ → Action (List AuditEvent)
get_events event_type limit offset = Events.list_events event_type limit offset

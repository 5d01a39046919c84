-- ===== src/Governance/Construct.antt =====
-- The constructors of the models (models.py, audit.py): the default factories draw an identifier
-- and times, and pydantic checks the constraints of the fields.
use open_data_gov.Prelude.{ℕ, String, Bool, ◌&&◌, not, Option, none, has_length, text_length, leb}
use open_data_gov.Prelude.Exec.{pure, raise_if, ◌>>=◌, ◌>>◌}
use open_data_gov.Enums.Governance.{
  RaciRole, DecisionType, DecisionStatus, VoteValue, VetoStatus, AuditEventType,
}
use open_data_gov.Runtime.{Runtime, Details}
use open_data_gov.Models.{ApprovalRecord, VetoRecord, RaciAssignment}
use open_data_gov.Models.Promotion.{GovernanceDecision, PromotionMetadata}
use open_data_gov.Audit.{AuditEvent}
use open_data_gov.Governance.Session.{Error, Action, uuid4, utcnow}

unfoldable pub validate : Bool → Action (Unit {0})
unfolding raise_if
validate fits = raise_if (not fits) Error.validation_error

module _ ⦃rt : Runtime⦄ where
  unfoldable pub new_decision :
      DecisionType
      → (title description domain_id created_by : String) → Option PromotionMetadata
      → Details
      → Action GovernanceDecision
  new_decision decision_type title description domain_id created_by promotion metadata = do
    id ← uuid4
    created_at ← utcnow
    updated_at ← utcnow
    validate (has_length 1 500 title && has_length 1 100 domain_id && has_length 1 200 created_by)
    pure (record {
      id = id;
      decision_type = decision_type;
      title = title;
      description = description;
      status = DecisionStatus.pending;
      domain_id = domain_id;
      created_by = created_by;
      created_at = created_at;
      updated_at = updated_at;
      metadata = metadata;
      promotion = promotion;
    })

  unfoldable pub new_approval :
      (decision_id : ℕ) (voter_id : String) → RaciRole → VoteValue → String → Action ApprovalRecord
  new_approval decision_id voter_id voter_role vote comment = do
    id ← uuid4
    voted_at ← utcnow
    validate (has_length 1 200 voter_id)
    pure (record {
      id = id;
      decision_id = decision_id;
      voter_id = voter_id;
      voter_role = voter_role;
      vote = vote;
      comment = comment;
      voted_at = voted_at;
    })

  unfoldable pub new_veto :
      (decision_id : ℕ) (vetoed_by : String) → RaciRole → String → Action VetoRecord
  new_veto decision_id vetoed_by vetoed_by_role reason = do
    id ← uuid4
    vetoed_at ← utcnow
    validate (has_length 1 200 vetoed_by && leb 1 (text_length reason))
    pure (record {
      id = id;
      decision_id = decision_id;
      vetoed_by = vetoed_by;
      vetoed_by_role = vetoed_by_role;
      reason = reason;
      status = VetoStatus.active;
      vetoed_at = vetoed_at;
      expires_at = none;
      overridden_by = none;
      overridden_at = none;
    })

  unfoldable pub new_assignment :
      (user_id domain_id : String) → RaciRole → String → Action RaciAssignment
  new_assignment user_id domain_id role assigned_by = do
    id ← uuid4
    assigned_at ← utcnow
    validate
        (has_length 1 200 user_id && has_length 1 100 domain_id && has_length 1 200 assigned_by)
    pure (record {
      id = id;
      user_id = user_id;
      domain_id = domain_id;
      role = role;
      assigned_at = assigned_at;
      assigned_by = assigned_by;
    })

  unfoldable pub new_audit_event :
      AuditEventType
      → (entity_type entity_id actor_id description : String) → Details
      → String
      → Action AuditEvent
  new_audit_event event_type entity_type entity_id actor_id description details previous_hash = do
    id ← uuid4
    occurred_at ← utcnow
    validate (
        has_length 1 100 entity_type
        && has_length 1 200 entity_id
        && has_length 1 200 actor_id
        && has_length 0 64 previous_hash)
    pure (record {
      id = id;
      event_type = event_type;
      entity_type = entity_type;
      entity_id = entity_id;
      actor_id = actor_id;
      description = description;
      details = details;
      occurred_at = occurred_at;
      previous_hash = previous_hash;
      event_hash = "";
    })

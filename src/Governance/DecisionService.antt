-- ===== src/Governance/DecisionService.antt =====
-- services/governance-engine/src/governance_engine/domain/decision_service.py
use open_data_gov.Prelude.{ℕ, String, Bool, true, false, not, List, [], ◌∷◌, Option, ◌==◌, f_string}
use open_data_gov.Prelude.Exec.{pure, require, raise_if, ◌>>=◌, ◌>>◌}
use open_data_gov.Enums.Governance.{
  DecisionType, DecisionStatus, decision_status_eq, decision_status_value, AuditEventType,
}
use open_data_gov.Runtime.{Runtime, Details}
use open_data_gov.Models.Promotion.{GovernanceDecision, PromotionMetadata}
use open_data_gov.Governance.Session.{Error, Action}
use open_data_gov.Governance.Construct.{new_decision}
use open_data_gov.Governance.Repository.Decisions
use open_data_gov.Governance.AuditService.{record_event}

-- the statuses that `finalize` accepts
unfoldable pub is_final : DecisionStatus → Bool
is_final DecisionStatus.approved = true
is_final DecisionStatus.rejected = true
is_final DecisionStatus.vetoed = true
is_final DecisionStatus.escalated = true
is_final _ = false

-- `event_map`; `finalize` asks for the event of a final status only
unfoldable pub final_event : DecisionStatus → AuditEventType
final_event DecisionStatus.approved = AuditEventType.decision_approved
final_event DecisionStatus.rejected = AuditEventType.decision_rejected
final_event DecisionStatus.escalated = AuditEventType.decision_escalated
final_event _ = AuditEventType.veto_exercised

unfoldable pub get_decision : ℕ → Action (Option GovernanceDecision)
get_decision decision_id = Decisions.get_by_id decision_id

unfoldable pub list_decisions :
    Option String → Option DecisionStatus → ℕ → ℕ → Action (List GovernanceDecision)
list_decisions domain_id status limit offset =
    Decisions.list_decisions domain_id status limit offset

module _ ⦃rt : Runtime⦄ where
  unfoldable pub create_decision :
      DecisionType
      → (title description domain_id created_by : String) → Option PromotionMetadata
      → Details
      → Action GovernanceDecision
  create_decision decision_type title description domain_id created_by promotion metadata = do
    decision ← new_decision decision_type title description domain_id created_by promotion metadata
    saved ← Decisions.create decision
    record_event AuditEventType.decision_created "decision" (rt.uuid_text saved.id) created_by
        (f_string ("Decision created: " ∷ title ∷ [])) []
    pure saved

  unfoldable pub submit_for_approval : ℕ → String → Action GovernanceDecision
  submit_for_approval decision_id actor_id = do
    found ← Decisions.get_by_id decision_id
    decision ← require Error.decision_not_found found
    raise_if (not (decision.status == DecisionStatus.pending)) Error.not_pending
    updated ← Decisions.update (record decision { status = DecisionStatus.awaiting_approval })
    record_event AuditEventType.decision_submitted "decision" (rt.uuid_text decision_id) actor_id
        (f_string ("Decision submitted for approval: " ∷ decision.title ∷ [])) []
    pure updated

  unfoldable pub finalize : ℕ → DecisionStatus → String → Action GovernanceDecision
  finalize decision_id status actor_id = do
    found ← Decisions.get_by_id decision_id
    decision ← require Error.decision_not_found found
    raise_if (not (decision.status == DecisionStatus.awaiting_approval)) Error.not_awaiting_approval
    raise_if (not (is_final status)) Error.invalid_final_status
    updated ← Decisions.update (record decision { status = status })
    record_event (final_event status) "decision" (rt.uuid_text decision_id) actor_id
        (f_string
          ("Decision finalized as " ∷ decision_status_value status ∷ ": " ∷ decision.title ∷ []))
        []
    pure updated

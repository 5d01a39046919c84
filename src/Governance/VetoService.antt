-- ===== src/Governance/VetoService.antt =====
-- services/governance-engine/src/governance_engine/domain/veto_service.py
use open_data_gov.Prelude.{
  ℕ, String, Bool, true, false, not, List, [], ◌∷◌, some, ◌==◌, f_string, leb,
}
use open_data_gov.Prelude.Exec.{pure, require, raise_if, ◌>>=◌, ◌>>◌}
use open_data_gov.Enums.Governance.{
  RaciRole, DecisionType, decision_type_eq, DecisionStatus, decision_status_eq, VetoStatus,
  veto_status_eq, AuditEventType,
}
use open_data_gov.Runtime.{Runtime, Scalar}
use open_data_gov.Models.{VetoRecord, compute_expiry}
use open_data_gov.Governance.Session.{Error, Action}
use open_data_gov.Governance.Construct.{new_veto}
use open_data_gov.Governance.Repository.Vetoes
use open_data_gov.Governance.Repository.Roles
use open_data_gov.Governance.AuditService.{record_event}
use open_data_gov.Governance.DecisionService.{get_decision, finalize}

-- ROLE_HIERARCHY, which names every role
unfoldable pub role_level : RaciRole → ℕ
role_level RaciRole.accountable = 3
role_level RaciRole.responsible = 2
role_level RaciRole.consulted = 1
role_level RaciRole.informed = 0

-- VETO_ELIGIBLE_ROLES
unfoldable pub is_veto_eligible : RaciRole → Bool
is_veto_eligible RaciRole.accountable = true
is_veto_eligible RaciRole.responsible = true
is_veto_eligible _ = false

unfoldable pub list_vetoes : ℕ → Action (List VetoRecord)
list_vetoes decision_id = Vetoes.list_by_decision decision_id

module _ ⦃rt : Runtime⦄ where
  unfoldable pub exercise_veto : ℕ → String → String → Action VetoRecord
  exercise_veto decision_id vetoed_by reason = do
    found ← get_decision decision_id
    decision ← require Error.decision_not_found found
    raise_if (not (decision.status == DecisionStatus.awaiting_approval)) Error.not_awaiting_approval
    assigned ← Roles.get_assignment vetoed_by decision.domain_id
    assignment ← require Error.no_raci_role assigned
    raise_if (not (is_veto_eligible assignment.role)) Error.not_eligible_to_veto
    let is_emergency = decision.decision_type == DecisionType.emergency
    veto ← new_veto decision_id vetoed_by assignment.role reason
    let expires_at = compute_expiry veto is_emergency
    saved ← Vetoes.create (record veto { expires_at = some expires_at })
    finalize decision_id DecisionStatus.vetoed vetoed_by
    record_event AuditEventType.veto_exercised "decision" (rt.uuid_text decision_id) vetoed_by
        (f_string ("Veto exercised by " ∷ vetoed_by ∷ ": " ∷ reason ∷ []))
        (("reason", Scalar.str reason)
          ∷ ("is_emergency", Scalar.bool is_emergency)
          ∷ ("expires_at", Scalar.str (rt.time_text expires_at))
          ∷ [])
    pure saved

  unfoldable pub override_veto : ℕ → String → Action VetoRecord
  override_veto veto_id overridden_by = do
    found_veto ← Vetoes.get_by_id veto_id
    veto ← require Error.veto_not_found found_veto
    raise_if (not (veto.status == VetoStatus.active)) Error.veto_not_active
    found ← get_decision veto.decision_id
    decision ← require Error.decision_not_found found
    assigned ← Roles.get_assignment overridden_by decision.domain_id
    override_assignment ← require Error.no_raci_role assigned
    raise_if (leb (role_level override_assignment.role) (role_level veto.vetoed_by_role))
        Error.cannot_override
    updated ←
        Vetoes.update
          (record veto { status = VetoStatus.overridden; overridden_by = some overridden_by })
    record_event AuditEventType.veto_overridden "decision" (rt.uuid_text veto.decision_id)
        overridden_by (f_string ("Veto overridden by " ∷ overridden_by ∷ [])) []
    pure updated

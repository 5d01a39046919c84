-- ===== src/Governance/ApprovalService.antt =====
-- services/governance-engine/src/governance_engine/domain/approval_service.py
use open_data_gov.Prelude.{
  ℕ, String, Bool, true, false, not, List, [], ◌∷◌, none, some, map, select, any, all, ◌==◌,
  string_eq, f_string, is_empty, if◌then◌else◌,
}
use open_data_gov.Prelude.Exec.{pure, require, raise_if, ◌>>=◌, ◌>>◌}
use open_data_gov.Enums.Governance.{
  RaciRole, raci_role_value, DecisionStatus, decision_status_eq, VoteValue, vote_value_eq,
  vote_value_value, AuditEventType,
}
use open_data_gov.Runtime.{Runtime, Scalar}
use open_data_gov.Models.{ApprovalRecord, RaciAssignment}
use open_data_gov.Models.Promotion.{GovernanceDecision}
use open_data_gov.Governance.Session.{Error, Action}
use open_data_gov.Governance.Construct.{new_approval}
use open_data_gov.Governance.Repository.Approvals
use open_data_gov.Governance.Repository.Roles
use open_data_gov.Governance.AuditService.{record_event}
use open_data_gov.Governance.DecisionService.{get_decision, finalize}

-- REQUIRED_APPROVAL_ROLES
unfoldable pub is_required_role : RaciRole → Bool
is_required_role RaciRole.responsible = true
is_required_role RaciRole.accountable = true
is_required_role _ = false

-- the sets of `_check_and_finalize`, as lists
unfoldable pub required_voters : List RaciAssignment → List String
required_voters assignments =
    map (λ a. a.user_id) (select (λ a. is_required_role a.role) assignments)

unfoldable pub approved_voters : List ApprovalRecord → List String
approved_voters approvals =
    map (λ a. a.voter_id) (select (λ a. a.vote == VoteValue.approve) approvals)

unfoldable pub is_subset : List String → List String → Bool
is_subset xs ys = all (λ x. any (λ y. y == x) ys) xs

unfoldable pub list_votes : ℕ → Action (List ApprovalRecord)
list_votes decision_id = Approvals.list_by_decision decision_id

module _ ⦃rt : Runtime⦄ where
  unfoldable pub check_and_finalize : ℕ → String → Action (Unit {0})
  check_and_finalize decision_id domain_id = do
    required_assignments ← Roles.list_by_domain domain_id
    let required = required_voters required_assignments
    if is_empty required then pure tt else do
      approvals ← Approvals.list_by_decision decision_id
      let approved = approved_voters approvals
      if is_subset required approved
          then (do finalize decision_id DecisionStatus.approved "system"; pure tt)
          else pure tt

  -- what `cast_vote` does with the decision once the vote is stored
  unfoldable pub settle : ℕ → GovernanceDecision → String → VoteValue → Action (Unit {0})
  settle decision_id decision voter_id vote =
      if vote == VoteValue.reject
      then (do finalize decision_id DecisionStatus.rejected voter_id; pure tt)
      else if vote == VoteValue.approve
      then check_and_finalize decision_id decision.domain_id
      else pure tt

  unfoldable pub cast_vote : ℕ → String → VoteValue → String → Action ApprovalRecord
  cast_vote decision_id voter_id vote comment = do
    found ← get_decision decision_id
    decision ← require Error.decision_not_found found
    raise_if (not (decision.status == DecisionStatus.awaiting_approval)) Error.not_awaiting_approval
    assigned ← Roles.get_assignment voter_id decision.domain_id
    assignment ← require Error.no_raci_role assigned
    existing ← Approvals.get_vote decision_id voter_id
    raise_if (elim existing [ none ↦ false | some _ ↦ true ]) Error.already_voted
    vote_record ← new_approval decision_id voter_id assignment.role vote comment
    saved ← Approvals.create vote_record
    record_event AuditEventType.approval_cast "decision" (rt.uuid_text decision_id) voter_id
        (f_string (
          "Vote "
          ∷ vote_value_value vote
          ∷ " cast by "
          ∷ voter_id
          ∷ " (role: "
          ∷ raci_role_value assignment.role
          ∷ ")"
          ∷ []))
        (("vote", Scalar.str (vote_value_value vote))
          ∷ ("role", Scalar.str (raci_role_value assignment.role))
          ∷ ("comment", Scalar.str comment)
          ∷ [])
    settle decision_id decision voter_id vote
    pure saved

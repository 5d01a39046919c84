-- ===== src/Governance/Uniqueness/Untouching.antt =====
-- What the services other than `cast_vote` do to the votes.
use open_data_gov.Prelude.{ℕ, ◌≡◌, refl, ◌∙◌, String, List, Option}
use open_data_gov.Prelude.Exec.{modify}
use open_data_gov.Prelude.Follows.{Follows, IsPreorder, follows_rules}
use open_data_gov.Enums.Governance.{AuditEventType, DecisionStatus, DecisionType, RaciRole}
use open_data_gov.Runtime.{Runtime, Details}
use open_data_gov.Models.{VetoRecord, RaciAssignment}
use open_data_gov.Models.Promotion.{GovernanceDecisionRow, PromotionMetadata}
use open_data_gov.Governance.Session.{World, Error, uuid4, utcnow}
use open_data_gov.Governance.Construct.{validate, new_decision, new_veto, new_assignment}
use open_data_gov.Governance.Repository.Decisions
use open_data_gov.Governance.Repository.Vetoes
use open_data_gov.Governance.Repository.Roles
use open_data_gov.Governance.AuditService.{record_event}
use open_data_gov.Governance.DecisionService.{
  get_decision, create_decision, submit_for_approval, finalize,
}
use open_data_gov.Governance.VetoService.{exercise_veto, override_veto}
use open_data_gov.Governance.RoleService.{assign_role, revoke_role}
use open_data_gov.Governance.Lifecycle.Frame.{record_event-SameTables}

pub record SameApprovals (w w' : World) : Type 0 where
  pub approvals : w'.approvals ≡ w.approvals

pub SameApprovals-IsPreorder : IsPreorder SameApprovals
SameApprovals-IsPreorder = record {
  reflexive = λ w. record { approvals = refl };
  transitive = λ a b c f g. record { approvals = g.approvals ∙ f.approvals };
}

decisions-SameApprovals :
    (f : World → List GovernanceDecisionRow)
    → Follows {E = Error} SameApprovals (modify (λ w. record w { decisions = f w }))
unfolding modify
decisions-SameApprovals f = record { at = λ w. record { approvals = refl } }

vetoes-SameApprovals :
    (f : World → List VetoRecord)
    → Follows {E = Error} SameApprovals (modify (λ w. record w { vetoes = f w }))
unfolding modify
vetoes-SameApprovals f = record { at = λ w. record { approvals = refl } }

roles-SameApprovals :
    (f : World → List RaciAssignment)
    → Follows {E = Error} SameApprovals (modify (λ w. record w { roles = f w }))
unfolding modify
roles-SameApprovals f = record { at = λ w. record { approvals = refl } }

get_assignment-SameApprovals : (u e : String) → Follows SameApprovals (Roles.get_assignment u e)
unfolding Roles.get_assignment
get_assignment-SameApprovals u e = record { at = λ w. record { approvals = refl } }

module _ ⦃rt : Runtime⦄ where
  pub uuid4-SameApprovals : Follows SameApprovals uuid4
  unfolding uuid4
  uuid4-SameApprovals = record { at = λ w. record { approvals = refl } }

  pub utcnow-SameApprovals : Follows SameApprovals utcnow
  unfolding utcnow
  utcnow-SameApprovals = record { at = λ w. record { approvals = refl } }

  pub record_event-SameApprovals :
      (t : AuditEventType) (a b c e : String) (details : Details)
      → Follows SameApprovals (record_event t a b c e details)
  record_event-SameApprovals t a b c e details = record {
    at = λ w. record { approvals = ((record_event-SameTables t a b c e details).at w).approvals };
  }

  ruleset still_votes = (
    follows_rules, SameApprovals-IsPreorder, decisions-SameApprovals, vetoes-SameApprovals,
    roles-SameApprovals, get_assignment-SameApprovals, uuid4-SameApprovals, utcnow-SameApprovals,
    record_event-SameApprovals,
  )

  pub submit-SameApprovals : (d : ℕ) (a : String) → Follows SameApprovals (submit_for_approval d a)
  unfolding submit_for_approval Decisions.get_by_id Decisions.update
  submit-SameApprovals d a = search still_votes depth 30

  pub finalize-SameApprovals :
      (d : ℕ) (s : DecisionStatus) (a : String) → Follows SameApprovals (finalize d s a)
  unfolding finalize Decisions.get_by_id Decisions.update
  finalize-SameApprovals d s a = search still_votes depth 30

  pub create_decision-SameApprovals :
      (t : DecisionType) (a b c d : String) (p : Option PromotionMetadata) (m : Details)
      → Follows SameApprovals (create_decision t a b c d p m)
  unfolding create_decision new_decision validate Decisions.create
  create_decision-SameApprovals t a b c d p m = search still_votes depth 30

  pub exercise_veto-SameApprovals :
      (d : ℕ) (a b : String) → Follows SameApprovals (exercise_veto d a b)
  unfolding exercise_veto get_decision Decisions.get_by_id new_veto validate Vetoes.create
  exercise_veto-SameApprovals d a b = search (still_votes, finalize-SameApprovals) depth 40

  pub override_veto-SameApprovals : (v : ℕ) (a : String) → Follows SameApprovals (override_veto v a)
  unfolding override_veto Vetoes.get_by_id get_decision Decisions.get_by_id Vetoes.update
  override_veto-SameApprovals v a = search still_votes depth 40

  pub assign_role-SameApprovals :
      (u d : String) (r : RaciRole) (a : String) → Follows SameApprovals (assign_role u d r a)
  unfolding assign_role new_assignment validate Roles.create
  assign_role-SameApprovals u d r a = search still_votes depth 40

  pub revoke_role-SameApprovals : (i : ℕ) (a : String) → Follows SameApprovals (revoke_role i a)
  unfolding revoke_role Roles.get_by_id Roles.delete
  revoke_role-SameApprovals i a = search still_votes depth 40

-- ===== src/Governance/Respects.antt =====
-- A relation between states that every operation of the repositories, `submit_for_approval`,
-- `finalize` and `record_event` keep is kept by every operation of the services.
use open_data_gov.Prelude.{ℕ, String, Option}
use open_data_gov.Prelude.Follows.{Follows, IsPreorder, follows_rules}
use open_data_gov.Enums.Governance.{
  AuditEventType, DecisionType, DecisionStatus, VoteValue, RaciRole,
}
use open_data_gov.Runtime.{Runtime, Details}
use open_data_gov.Models.{ApprovalRecord, VetoRecord, RaciAssignment}
use open_data_gov.Models.Promotion.{GovernanceDecision, PromotionMetadata}
use open_data_gov.Governance.Session.{World, uuid4, utcnow}
use open_data_gov.Governance.Construct.{
  validate, new_decision, new_approval, new_veto, new_assignment,
}
use open_data_gov.Governance.Repository.Decisions
use open_data_gov.Governance.Repository.Approvals
use open_data_gov.Governance.Repository.Vetoes
use open_data_gov.Governance.Repository.Roles
use open_data_gov.Governance.AuditService.{record_event}
use open_data_gov.Governance.DecisionService.{
  get_decision, create_decision, submit_for_approval, finalize,
}
use open_data_gov.Governance.ApprovalService.{check_and_finalize, settle, cast_vote}
use open_data_gov.Governance.VetoService.{exercise_veto, override_veto}
use open_data_gov.Governance.RoleService.{assign_role, revoke_role}

module _ ⦃rt : Runtime⦄ where
  pub record Respects (R : World → World → Type 0) : Type 0 where
    pub preorder : IsPreorder R
    pub draw_id : Follows R uuid4
    pub draw_time : Follows R utcnow
    pub new_row : (d : GovernanceDecision) → Follows R (Decisions.create d)
    pub submitted : (d : ℕ) (a : String) → Follows R (submit_for_approval d a)
    pub finalized : (d : ℕ) (s : DecisionStatus) (a : String) → Follows R (finalize d s a)
    pub vote_added : (v : ApprovalRecord) → Follows R (Approvals.create v)
    pub veto_added : (v : VetoRecord) → Follows R (Vetoes.create v)
    pub veto_updated : (v : VetoRecord) → Follows R (Vetoes.update v)
    pub role_added : (a : RaciAssignment) → Follows R (Roles.create a)
    pub role_deleted : (i : ℕ) → Follows R (Roles.delete i)
    pub logged :
        (t : AuditEventType) (a b c d : String) (details : Details)
        → Follows R (record_event t a b c d details)

  module _ {R : World → World → Type 0} (respects : Respects R) where
    -- `search` takes lemmas, not fields
    pre : IsPreorder R
    pre = respects.preorder

    uuid4-Follows : Follows R uuid4
    uuid4-Follows = respects.draw_id

    utcnow-Follows : Follows R utcnow
    utcnow-Follows = respects.draw_time

    new_row-Follows : (d : GovernanceDecision) → Follows R (Decisions.create d)
    new_row-Follows = respects.new_row

    finalize-Follows : (d : ℕ) (s : DecisionStatus) (a : String) → Follows R (finalize d s a)
    finalize-Follows = respects.finalized

    record_event-Follows :
        (t : AuditEventType) (a b c d : String) (details : Details)
        → Follows R (record_event t a b c d details)
    record_event-Follows = respects.logged

    new_vote-Follows : (v : ApprovalRecord) → Follows R (Approvals.create v)
    new_vote-Follows = respects.vote_added

    new_veto-Follows : (v : VetoRecord) → Follows R (Vetoes.create v)
    new_veto-Follows = respects.veto_added

    veto_update-Follows : (v : VetoRecord) → Follows R (Vetoes.update v)
    veto_update-Follows = respects.veto_updated

    new_role-Follows : (a : RaciAssignment) → Follows R (Roles.create a)
    new_role-Follows = respects.role_added

    role_delete-Follows : (i : ℕ) → Follows R (Roles.delete i)
    role_delete-Follows = respects.role_deleted

    get_vote-Follows : (d : ℕ) (v : String) → Follows R (Approvals.get_vote d v)
    unfolding Approvals.get_vote
    get_vote-Follows d v = record { at = pre.reflexive }

    get_assignment-Follows : (u d : String) → Follows R (Roles.get_assignment u d)
    unfolding Roles.get_assignment
    get_assignment-Follows u d = record { at = pre.reflexive }

    ruleset step_rules = (
      follows_rules, pre, uuid4-Follows, utcnow-Follows, new_row-Follows, finalize-Follows,
      record_event-Follows, new_vote-Follows, new_veto-Follows, veto_update-Follows,
      new_role-Follows, role_delete-Follows, get_vote-Follows, get_assignment-Follows,
    )

    pub create_decision-Follows :
        (t : DecisionType) (a b c d : String) (p : Option PromotionMetadata) (m : Details)
        → Follows R (create_decision t a b c d p m)
    unfolding create_decision new_decision validate
    create_decision-Follows t a b c d p m = search step_rules depth 30

    check_and_finalize-Follows : (d : ℕ) (a : String) → Follows R (check_and_finalize d a)
    unfolding check_and_finalize Roles.list_by_domain Approvals.list_by_decision
    check_and_finalize-Follows d a = search step_rules depth 30

    settle-Follows :
        (d : ℕ) (e : GovernanceDecision) (a : String) (v : VoteValue) → Follows R (settle d e a v)
    unfolding settle
    settle-Follows d e a v = search (step_rules, check_and_finalize-Follows) depth 30

    pub cast_vote-Follows :
        (d : ℕ) (a : String) (v : VoteValue) (c : String) → Follows R (cast_vote d a v c)
    unfolding cast_vote get_decision Decisions.get_by_id new_approval validate
    cast_vote-Follows d a v c = search (step_rules, settle-Follows) depth 30

    pub exercise_veto-Follows : (d : ℕ) (a b : String) → Follows R (exercise_veto d a b)
    unfolding exercise_veto get_decision Decisions.get_by_id new_veto validate
    exercise_veto-Follows d a b = search step_rules depth 30

    pub override_veto-Follows : (v : ℕ) (a : String) → Follows R (override_veto v a)
    unfolding override_veto Vetoes.get_by_id get_decision Decisions.get_by_id
    override_veto-Follows v a = search step_rules depth 30

    pub assign_role-Follows :
        (u d : String) (r : RaciRole) (a : String) → Follows R (assign_role u d r a)
    unfolding assign_role new_assignment validate
    assign_role-Follows u d r a = search step_rules depth 30

    pub revoke_role-Follows : (i : ℕ) (a : String) → Follows R (revoke_role i a)
    unfolding revoke_role Roles.get_by_id
    revoke_role-Follows i a = search step_rules depth 30

-- ===== src/Governance/Consent/Approval.antt =====
-- No request approves a decision without everyone's vote.
use open_data_gov.Prelude.{refl, inl, inr, Bool-cases}
use open_data_gov.Prelude.Exec.{Result, Result-cases, ok, err, pure, ◌>>=◌}
use open_data_gov.Prelude.Follows.{Follows, follows_rules}
use open_data_gov.Runtime.{Runtime}
use open_data_gov.Governance.Session.{World, Error, Action}
use open_data_gov.Governance.Repository.Decisions
use open_data_gov.Governance.Repository.Approvals
use open_data_gov.Governance.Repository.Vetoes
use open_data_gov.Governance.Repository.Roles
use open_data_gov.Governance.Repository.Events
use open_data_gov.Governance.AuditService
use open_data_gov.Governance.DecisionService
use open_data_gov.Governance.ApprovalService
use open_data_gov.Governance.VetoService
use open_data_gov.Governance.RoleService
use open_data_gov.Governance.Api.{Request, Response, handle, serve, body_fits}
use open_data_gov.Governance.Requests.{outcome, transaction_lem}
use open_data_gov.Governance.Consent.Cast.{ApprovesByAll, unapproving, cast_vote-ApprovesByAll}
use open_data_gov.Governance.Consent.Others.{
  ApprovesNone, ApprovesNone-IsPreorder, submit-ApprovesNone, create_decision-ApprovesNone,
  exercise_veto-ApprovesNone, override_veto-ApprovesNone, assign_role-ApprovesNone,
  revoke_role-ApprovesNone,
}

none-ApprovesByAll : (w w' : World) → ApprovesNone w w' → ApprovesByAll w w'
none-ApprovesByAll w w' none = record {
  kept = λ key row h.
      let (row', found, reason) = none.kept key row h in
      (row', found, λ e. elim (reason e) [ inl before ↦ inl before | inr j ↦ absurd j ]);
}

none-Follows : {A : Type 0} {m : Action A} → Follows ApprovesNone m → Follows ApprovesByAll m
none-Follows h = record { at = λ w. none-ApprovesByAll w _ (h.at w) }

then_pure :
    {A B : Type 0} (R : World → World → Type 0) (m : Action A) (f : A → B)
    → Follows R m
    → Follows R (m >>= λ a. pure (f a))
unfolding pure ◌>>=◌
then_pure R m f h = record {
  at = λ w. elim (Result-cases (m w).0) [ inl (a, e) ↦ rw e (h.at w) | inr (x, e) ↦ rw e (h.at w) ];
}

module _ ⦃rt : Runtime⦄ where
  ruleset handle-ApprovesByAllrs = (
    follows_rules, ApprovesNone-IsPreorder, submit-ApprovesNone, create_decision-ApprovesNone,
    exercise_veto-ApprovesNone, override_veto-ApprovesNone, assign_role-ApprovesNone,
    revoke_role-ApprovesNone,
  )

  handle-ApprovesByAll : (request : Request) → Follows ApprovesByAll (handle request)
  unfolding handle DecisionService.list_decisions Decisions.list_decisions
      DecisionService.get_decision Decisions.get_by_id ApprovalService.list_votes
      Approvals.list_by_decision VetoService.list_vetoes Vetoes.list_by_decision
      RoleService.get_assignments_for_domain Roles.list_by_domain
      RoleService.get_assignments_for_user Roles.list_by_user AuditService.get_events
      Events.list_events AuditService.get_events_for_entity Events.list_by_entity
      AuditService.verify_integrity Events.get_chain
  handle-ApprovesByAll (Request.approve_decision d voter_id vote comment) =
      then_pure ApprovesByAll (ApprovalService.cast_vote d voter_id vote comment) Response.approval
        (cast_vote-ApprovesByAll d voter_id vote comment)
  handle-ApprovesByAll (Request.get_decision d) =
      none-Follows (search handle-ApprovesByAllrs depth 30)
  handle-ApprovesByAll _ = none-Follows (search handle-ApprovesByAllrs depth 30)

  outcome-ApprovesByAll :
      {A : Type 0} (r : Result Error A) (w w' : World)
      → ApprovesByAll w w'
      → ApprovesByAll w (outcome r w w').1
  unfolding outcome
  outcome-ApprovesByAll (ok a) w w' h = h
  outcome-ApprovesByAll (err e) w w' h = unapproving w _ refl

  -- Whatever the request, a stored decision is stored after it, and where it has become approved,
  -- its domain has a responsible or accountable user and all of these have voted to approve it.
  pub serve-ApprovesByAll : (request : Request) (w : World) → ApprovesByAll w (serve request w).1
  unfolding serve
  serve-ApprovesByAll request w = elim (Bool-cases (body_fits request)) [
    | inl fits ↦
        rw (fits, transaction_lem (handle request) w)
          (outcome-ApprovesByAll (handle request w).0 w (handle request w).1
            ((handle-ApprovesByAll request).at w))
    | inr misfits ↦ rw misfits (unapproving w w refl)
  ]

-- ===== src/Governance/Requests.antt =====
-- From the operations to requests: what every operation keeps, every sequence of requests keeps.
use open_data_gov.Enums.Governance.{DecisionType, VoteValue, RaciRole}
use open_data_gov.Models.Promotion.{PromotionMetadata}
use open_data_gov.Prelude.{ℕ, String, Option, ◌≡◌, List, [], ◌∷◌, Bool-cases, inl, inr, arith}
use open_data_gov.Prelude.Exec.{Result, ok, err}
use open_data_gov.Prelude.Follows.{Follows, IsPreorder, follows_rules}
use open_data_gov.Runtime.{Runtime, Details}
use open_data_gov.Governance.Session.{World, Error, Action, transaction}
use open_data_gov.Governance.Repository.Decisions
use open_data_gov.Governance.Repository.Approvals
use open_data_gov.Governance.Repository.Vetoes
use open_data_gov.Governance.Repository.Roles
use open_data_gov.Governance.Repository.Events
use open_data_gov.Governance.AuditService
use open_data_gov.Governance.DecisionService
use open_data_gov.Governance.ApprovalService
use open_data_gov.Governance.VetoService
use open_data_gov.Governance.RoleService
use open_data_gov.Governance.Respects.{
  Respects, create_decision-Follows, cast_vote-Follows, exercise_veto-Follows,
  override_veto-Follows, assign_role-Follows, revoke_role-Follows,
}
use open_data_gov.Governance.Api.{Request, handle, serve, run, body_fits}

-- The state after the rollback of a request that began at `w` and had reached `w'`.
abbrev pub rolled_back : World → World → World
rolled_back w w' = record w { ids = w'.ids; ticks = w'.ticks }

-- what `transaction` makes of an outcome
unfoldable pub outcome : {A : Type 0} → Result Error A → World → World → Result Error A × World
outcome (ok a) w w' = (ok a, w')
outcome (err e) w w' = (err e, rolled_back w w')

pub transaction_lem :
    {A : Type 0} (m : Action A) (w : World) → transaction m w ≡ outcome (m w).0 w (m w).1
unfolding transaction outcome
transaction_lem m w = ground arith

module _ ⦃rt : Runtime⦄ {R : World → World → Type 0} (respects : Respects R) where
  pre : IsPreorder R
  pre = respects.preorder

  submit-Follows : (d : ℕ) (a : String) → Follows R (DecisionService.submit_for_approval d a)
  submit-Follows = respects.submitted

  create_decision-Respects :
      (t : DecisionType) (a b c d : String) (p : Option PromotionMetadata) (m : Details)
      → Follows R (DecisionService.create_decision t a b c d p m)
  create_decision-Respects = create_decision-Follows respects

  cast_vote-Respects :
      (d : ℕ) (a : String) (v : VoteValue) (c : String)
      → Follows R (ApprovalService.cast_vote d a v c)
  cast_vote-Respects = cast_vote-Follows respects

  exercise_veto-Respects : (d : ℕ) (a b : String) → Follows R (VetoService.exercise_veto d a b)
  exercise_veto-Respects = exercise_veto-Follows respects

  override_veto-Respects : (v : ℕ) (a : String) → Follows R (VetoService.override_veto v a)
  override_veto-Respects = override_veto-Follows respects

  assign_role-Respects :
      (u d : String) (r : RaciRole) (a : String) → Follows R (RoleService.assign_role u d r a)
  assign_role-Respects = assign_role-Follows respects

  revoke_role-Respects : (i : ℕ) (a : String) → Follows R (RoleService.revoke_role i a)
  revoke_role-Respects = revoke_role-Follows respects

  ruleset handlers = (
    follows_rules, pre, submit-Follows, create_decision-Respects, cast_vote-Respects,
    exercise_veto-Respects, override_veto-Respects, assign_role-Respects, revoke_role-Respects,
  )

  handle-Follows : (request : Request) → Follows R (handle request)
  unfolding handle DecisionService.list_decisions Decisions.list_decisions
      DecisionService.get_decision Decisions.get_by_id ApprovalService.list_votes
      Approvals.list_by_decision VetoService.list_vetoes Vetoes.list_by_decision
      RoleService.get_assignments_for_domain Roles.list_by_domain
      RoleService.get_assignments_for_user Roles.list_by_user AuditService.get_events
      Events.list_events AuditService.get_events_for_entity Events.list_by_entity
      AuditService.verify_integrity Events.get_chain
  handle-Follows (Request.get_decision d) = search handlers depth 30
  handle-Follows _ = search handlers depth 30

  module _ (undone : (w w' : World) → R w w' → R w (rolled_back w w')) where
    outcome-Follows :
        {A : Type 0} (r : Result Error A) (w w' : World) → R w w' → R w (outcome r w w').1
    unfolding outcome
    outcome-Follows (ok a) w w' h = h
    outcome-Follows (err e) w w' h = undone w w' h

    transaction-Follows : {A : Type 0} (m : Action A) → Follows R m → Follows R (transaction m)
    transaction-Follows m h = record {
      at = λ w. rw (transaction_lem m w) (outcome-Follows (m w).0 w (m w).1 (h.at w));
    }

    serve-Follows : (request : Request) (w : World) → R w (serve request w).1
    unfolding serve
    serve-Follows request w = elim (Bool-cases (body_fits request)) [
      | inl fits ↦ rw fits ((transaction-Follows (handle request) (handle-Follows request)).at w)
      | inr misfits ↦ rw misfits (pre.reflexive w)
    ]

    -- A relation that every operation and every rollback keep holds between the states before and
    -- after any sequence of requests.
    pub run-Follows : (w : World) (requests : List Request) → R w (run w requests)
    unfolding run
    run-Follows w [] = pre.reflexive w
    run-Follows w (request ∷ requests) =
        pre.transitive w _ _ (serve-Follows request w) (run-Follows (serve request w).1 requests)

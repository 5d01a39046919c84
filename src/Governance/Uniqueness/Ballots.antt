-- ===== src/Governance/Uniqueness/Ballots.antt =====
-- The votes after a request, and after a sequence of requests.
use open_data_gov.Prelude.{
  ℕ, ◌≤◌, ◌≡◌, refl, sym, subst, String, List, [], ◌∷◌, Option, length, select, arith, Bool-cases,
  inl, inr,
}
use open_data_gov.Prelude.Exec.{Result, ok, err, pure}
use open_data_gov.Prelude.Follows.{Follows, follows_rules}
use open_data_gov.Prelude.Returns.{Ensures, Ensures-bind}
use open_data_gov.Runtime.{Runtime}
use open_data_gov.Models.{ApprovalRecord}
use open_data_gov.Governance.Session.{World, Error, Action, empty_world}
use open_data_gov.Governance.Repository.Decisions
use open_data_gov.Governance.Repository.Approvals
use open_data_gov.Governance.Repository.Approvals.{is_vote}
use open_data_gov.Governance.Repository.Vetoes
use open_data_gov.Governance.Repository.Roles
use open_data_gov.Governance.Repository.Events
use open_data_gov.Governance.AuditService
use open_data_gov.Governance.DecisionService
use open_data_gov.Governance.ApprovalService
use open_data_gov.Governance.VetoService
use open_data_gov.Governance.RoleService
use open_data_gov.Governance.Api.{Request, handle, serve, run, body_fits}
use open_data_gov.Governance.Requests.{outcome, transaction_lem}
use open_data_gov.Governance.Uniqueness.Assignments.{scalar-ok}
use open_data_gov.Governance.Uniqueness.Untouching.{
  SameApprovals, SameApprovals-IsPreorder, submit-SameApprovals, create_decision-SameApprovals,
  exercise_veto-SameApprovals, override_veto-SameApprovals, assign_role-SameApprovals,
  revoke_role-SameApprovals,
}
use open_data_gov.Governance.Uniqueness.Votes.{UniqueVotes, cast_vote-UniqueVotes}

-- Where the action returns, it gives no voter a second vote.
record KeepsUniqueVotes {A : Type 0} (m : Action A) : Type 0 where
  at : (w : World) → UniqueVotes w.approvals → Ensures (λ _ w'. UniqueVotes w'.approvals) m w

untouched : {A : Type 0} {m : Action A} → Follows SameApprovals m → KeepsUniqueVotes m
untouched h = record { at = λ w unique a done. subst UniqueVotes (sym (h.at w).approvals) unique }

outcome-UniqueVotes :
    {A : Type 0} (r : Result Error A) (w w' : World)
    → UniqueVotes w.approvals
    → ((a : A) → r ≡ ok a → UniqueVotes w'.approvals)
    → UniqueVotes (outcome r w w').1.approvals
unfolding outcome
outcome-UniqueVotes (ok a) w w' unique done = done a refl
outcome-UniqueVotes (err e) w w' unique done = unique

module _ ⦃rt : Runtime⦄ where
  ruleset handler_rules = (
    follows_rules, SameApprovals-IsPreorder, submit-SameApprovals, create_decision-SameApprovals,
    exercise_veto-SameApprovals, override_veto-SameApprovals, assign_role-SameApprovals,
    revoke_role-SameApprovals,
  )

  handle-UniqueVotes : (request : Request) → KeepsUniqueVotes (handle request)
  unfolding handle DecisionService.list_decisions Decisions.list_decisions
      DecisionService.get_decision Decisions.get_by_id ApprovalService.list_votes
      Approvals.list_by_decision VetoService.list_vetoes Vetoes.list_by_decision
      RoleService.get_assignments_for_domain Roles.list_by_domain
      RoleService.get_assignments_for_user Roles.list_by_user AuditService.get_events
      Events.list_events AuditService.get_events_for_entity Events.list_by_entity
      AuditService.verify_integrity Events.get_chain pure
  handle-UniqueVotes (Request.approve_decision d voter_id vote comment) = record {
    at = λ w unique.
        Ensures-bind (λ _ w'. UniqueVotes w'.approvals) _ _ w
          λ saved cast _ _. cast_vote-UniqueVotes d voter_id vote comment w unique saved cast;
  }
  handle-UniqueVotes (Request.get_decision d) = untouched (search handler_rules depth 30)
  handle-UniqueVotes _ = untouched (search handler_rules depth 30)

  serve-UniqueVotes :
      (request : Request) (w : World)
      → UniqueVotes w.approvals
      → UniqueVotes (serve request w).1.approvals
  unfolding serve
  serve-UniqueVotes request w unique = elim (Bool-cases (body_fits request)) [
    | inl fits ↦
        rw (fits, transaction_lem (handle request) w)
          (outcome-UniqueVotes (handle request w).0 w (handle request w).1 unique
            ((handle-UniqueVotes request).at w unique))
    | inr misfits ↦ rw misfits unique
  ]

  run-UniqueVotes :
      (requests : List Request) (w : World)
      → UniqueVotes w.approvals
      → UniqueVotes (run w requests).approvals
  unfolding run
  run-UniqueVotes [] w unique = unique
  run-UniqueVotes (request ∷ requests) w unique =
      run-UniqueVotes requests (serve request w).1 (serve-UniqueVotes request w unique)

  -- After any sequence of requests to an engine with empty tables a voter has at most one vote on
  -- a decision, and looking it up returns: it never meets two rows.
  pub run-get_vote :
      (requests : List Request) (decision_id : ℕ) (voter_id : String)
      → (length (select (is_vote decision_id voter_id) (run empty_world requests).approvals) ≤ 1)
        × (o : Option ApprovalRecord) × ((Approvals.get_vote decision_id voter_id
              (run empty_world requests)).0
            ≡ ok o)
  unfolding Approvals.get_vote select
  run-get_vote requests decision_id voter_id =
      let unique = run-UniqueVotes requests empty_world (λ d v. omega arith) decision_id voter_id in
      let (o, read) = scalar-ok _ unique in (unique, o, read)

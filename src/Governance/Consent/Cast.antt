-- ===== src/Governance/Consent/Cast.antt =====
-- The whole of `cast_vote`.
use open_data_gov.Prelude.{ℕ, ◌≡◌, refl, subst, inl, inr, String, Option, some, arith, Option-cases}
use open_data_gov.Prelude.Exec.{gets, require, ◌>>=◌}
use open_data_gov.Prelude.Follows.{Follows, follows_rules}
use open_data_gov.Enums.Governance.{VoteValue, rejected}
use open_data_gov.Runtime.{Runtime}
use open_data_gov.Models.Promotion.{GovernanceDecision, GovernanceDecisionRow, assemble_promotion}
use open_data_gov.Governance.Session.{World, Error, Action, get_row}
use open_data_gov.Governance.Construct.{new_approval, validate}
use open_data_gov.Governance.Repository.Decisions
use open_data_gov.Governance.Repository.Decisions.{row_id}
use open_data_gov.Governance.Repository.Approvals
use open_data_gov.Governance.Repository.Roles
use open_data_gov.Governance.DecisionService.{get_decision, finalize}
use open_data_gov.Governance.ApprovalService.{settle, cast_vote}
use open_data_gov.Governance.Lifecycle.Updates.{find_decision-some}
use open_data_gov.Governance.Consent.Settled.{Keeps}
use open_data_gov.Governance.Consent.Unanimity.{Unanimous}
use open_data_gov.Governance.Consent.Voting.{
  Approves, Approves-IsPreorder, quiet, create-Approves, uuid4-Approves, utcnow-Approves,
  record_event-Approves, finalize-Approves, check_and_finalize-Approves,
}

-- Every stored decision stays stored, and is newly approved only by the votes of everyone with a
-- required role in its domain.
pub record ApprovesByAll (w w' : World) : Type 0 where
  pub kept :
      (key : ℕ) (row : GovernanceDecisionRow)
      → get_row row_id key w.decisions ≡ some row
      → Keeps (Unanimous key row.domain_id w') row key w'

pub unapproving : (w w' : World) → w'.decisions ≡ w.decisions → ApprovesByAll w w'
unapproving w w' e = record { kept = λ key row h. (row, rw e h, inl) }

-- a row is read, and the rest goes on with it
found_then :
    {A B : Type 0} (R : A → World → World → Type 0) (Q : World → Type 0) (f : World → Option A)
    (e : Error) (k : A → Action B) (w : World)
    → ((a : A) → Follows (R a) (k a))
    → ((a : A) (w' : World) → f w ≡ some a → R a w w' → Q w')
    → Q w
    → Q ((gets f >>= λ found. require e found >>= k) w).1
unfolding gets require ◌>>=◌
found_then R Q f e k w follows reached unread = elim (Option-cases (f w)) [
  | inl missing ↦ rw missing unread
  | inr (a, found) ↦ rw found (reached a (k a w).1 found ((follows a).at w))
]

module _ ⦃rt : Runtime⦄ (d : ℕ) where
  module _ (domain_id : String) where
    get_vote-Approves : (v : String) → Follows (Approves d domain_id) (Approvals.get_vote d v)
    unfolding Approvals.get_vote
    get_vote-Approves v = record { at = λ w. quiet d domain_id w w refl refl refl }

    get_assignment-Approves :
        (u e : String) → Follows (Approves d domain_id) (Roles.get_assignment u e)
    unfolding Roles.get_assignment
    get_assignment-Approves u e = record { at = λ w. quiet d domain_id w w refl refl refl }

    reject-Approves : (a : String) → Follows (Approves d domain_id) (finalize d rejected a)
    reject-Approves a = record {
      at = λ w. finalize-Approves d domain_id rejected a w (λ e. absurd (cc));
    }

  settle-Approves :
      (decision : GovernanceDecision) (voter_id : String) (vote : VoteValue)
      → Follows (Approves d decision.domain_id) (settle d decision voter_id vote)
  unfolding settle
  settle-Approves decision voter_id vote =
      search (follows_rules, Approves-IsPreorder, reject-Approves, check_and_finalize-Approves)
        depth 30

  pub same_domain :
      (decision : GovernanceDecision) (row : GovernanceDecisionRow) (w : World)
      → Decisions.find_decision d w ≡ some decision
      → get_row row_id d w.decisions ≡ some row
      → decision.domain_id ≡ row.domain_id
  unfolding assemble_promotion
  same_domain decision row w found h = ground (arith, found, find_decision-some d row w h)

  reached :
      (decision : GovernanceDecision) (w w' : World)
      → Decisions.find_decision d w ≡ some decision
      → Approves d decision.domain_id w w'
      → ApprovesByAll w w'
  reached decision w w' found approves = record {
    kept = λ key row h.
        let (row', found', reason) = approves.kept key row h in
        (
          row',
          found',
          λ e. elim (reason e) [
            | inl before ↦ inl before
            | inr (same, all_in) ↦
                let here : get_row row_id d w.decisions ≡ some row =
                  subst (λ k. get_row row_id k w.decisions ≡ some row) same h in
                let domain = same_domain decision row w found here in
                inr (rw same (subst (λ dom. Unanimous d dom w') domain all_in))
          ],
        );
  }

  ruleset cast_rules = (
    follows_rules, Approves-IsPreorder, get_vote-Approves, get_assignment-Approves, uuid4-Approves,
    utcnow-Approves, record_event-Approves, create-Approves, settle-Approves,
  )

  -- Casting a vote approves a decision only if all required voters have approved it.
  pub cast_vote-ApprovesByAll :
      (voter_id : String) (vote : VoteValue) (comment : String)
      → Follows ApprovesByAll (cast_vote d voter_id vote comment)
  unfolding cast_vote get_decision Decisions.get_by_id new_approval validate
  cast_vote-ApprovesByAll voter_id vote comment = record {
    at = λ w.
        found_then (λ decision. Approves d decision.domain_id) (ApprovesByAll w)
          (Decisions.find_decision d) Error.decision_not_found _ w
          (λ decision. search cast_rules depth 40)
          (λ decision w' found approves. reached decision w w' found approves)
          (unapproving w w refl);
  }

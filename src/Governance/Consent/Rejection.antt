-- ===== src/Governance/Consent/Rejection.antt =====
-- A vote to reject.
use open_data_gov.Prelude.{ℕ, ◌≡◌, sym, ap, subst, String, some}
use open_data_gov.Prelude.Exec.{ok, pure, ◌>>=◌}
use open_data_gov.Prelude.Returns.{bind-ok, Ensures, Ensures-gets, Ensures-bind}
use open_data_gov.Enums.Governance.{VoteValue, rejected}
use open_data_gov.Runtime.{Runtime}
use open_data_gov.Models.{ApprovalRecord}
use open_data_gov.Models.Promotion.{GovernanceDecision, GovernanceDecisionRow}
use open_data_gov.Governance.Session.{World, get_row}
use open_data_gov.Governance.Repository.Decisions
use open_data_gov.Governance.Repository.Decisions.{row_id}
use open_data_gov.Governance.DecisionService.{get_decision, finalize}
use open_data_gov.Governance.ApprovalService.{settle, cast_vote}
use open_data_gov.Governance.Lifecycle.Finalized.{finalize-ok}

-- The decision is stored, and rejected.
abbrev pub IsRejected : ℕ → World → Type 0
IsRejected d w =
    (row : GovernanceDecisionRow) × (get_row row_id d w.decisions ≡ some row)
    × (row.status ≡ rejected)

module _ ⦃rt : Runtime⦄ (d : ℕ) where
  settle-IsRejected :
      {A : Type 0} (decision : GovernanceDecision) (voter_id : String) (saved : A) (w : World)
      → Ensures
          (λ _. IsRejected d)
          (settle d decision voter_id VoteValue.reject >>= λ _. pure saved)
          w
  unfolding settle pure
  settle-IsRejected decision voter_id saved w =
      Ensures-bind (λ _. IsRejected d) _ _ w
        λ _ settled _ _.
          let (updated, done, last) = bind-ok (finalize d rejected voter_id) _ w _ settled in
          subst (λ r. IsRejected d r.1) (sym last)
            (finalize-ok d rejected voter_id w updated (ap (λ r. r.0) done))

  -- When a rejecting vote returns, the decision is rejected, whoever cast the vote.
  pub cast_vote-IsRejected :
      (voter_id comment : String) (w : World) (saved : ApprovalRecord)
      → (cast_vote d voter_id VoteValue.reject comment w).0 ≡ ok saved
      → IsRejected d (cast_vote d voter_id VoteValue.reject comment w).1
  unfolding cast_vote get_decision Decisions.get_by_id
  cast_vote-IsRejected voter_id comment w saved done =
      let P : ApprovalRecord → World → Type 0 = λ _. IsRejected d in
      Ensures-gets P _ _ w
        (Ensures-bind P _ _ w λ decision _. Ensures-bind P _ _ _ λ _ _.
          Ensures-bind P _ _ _ λ assigned _. Ensures-bind P _ _ _ λ assignment _.
            Ensures-bind P _ _ _ λ existing _. Ensures-bind P _ _ _ λ _ _.
              Ensures-bind P _ _ _ λ vote_record _.
                Ensures-bind P _ _ _ λ saved _.
                  Ensures-bind P _ _ _ λ _ _. settle-IsRejected decision voter_id saved _)
        saved done

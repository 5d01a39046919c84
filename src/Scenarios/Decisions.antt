-- ===== src/Scenarios/Decisions.antt =====
-- The life of a decision at concrete requests.
use open_data_gov.Prelude.{◌≡◌, ◌≤◌, refl, Option, some, length, select}
use open_data_gov.Prelude.Exec.{ok}
use open_data_gov.Enums.Governance.{DecisionStatus}
use open_data_gov.Models.{ApprovalRecord}
use open_data_gov.Models.Promotion.{
  GovernanceDecisionRow, assemble_promotion, decision_row, assemble_promotion-decision_row,
}
use open_data_gov.Governance.Session.{get_row, empty_world}
use open_data_gov.Governance.Repository.Approvals
use open_data_gov.Governance.Repository.Decisions.{row_id}
use open_data_gov.Governance.DecisionService.{is_final}
use open_data_gov.Governance.Api.{run}
use open_data_gov.Governance.Lifecycle.Evolution.{Evolves, run-Evolves, run_final}
use open_data_gov.Governance.Uniqueness.Ballots.{run-get_vote}
use open_data_gov.Scenarios.Toy.{toy, story, stored, stored_decision}

run-Evolves_example :
    Evolves (stored DecisionStatus.pending) (run (stored DecisionStatus.pending) story)
run-Evolves_example = run-Evolves (stored DecisionStatus.pending) story

run_final_example :
    (row' : GovernanceDecisionRow) × (get_row row_id 4
        (run (stored DecisionStatus.vetoed) story).decisions
      ≡ some row')
    × (row'.status ≡ DecisionStatus.vetoed)
unfolding get_row is_final
run_final_example =
    run_final (stored DecisionStatus.vetoed) story 4 (stored_decision DecisionStatus.vetoed) refl
      refl

assemble_promotion-decision_row_example :
    assemble_promotion (decision_row (assemble_promotion (stored_decision DecisionStatus.pending)))
    ≡ assemble_promotion (stored_decision DecisionStatus.pending)
assemble_promotion-decision_row_example =
    assemble_promotion-decision_row (assemble_promotion (stored_decision DecisionStatus.pending))

run-get_vote_example :
    (length (select (Approvals.is_vote 4 "bob") (run empty_world story).approvals) ≤ 1)
    × (o : Option ApprovalRecord) × ((Approvals.get_vote 4 "bob" (run empty_world story)).0 ≡ ok o)
run-get_vote_example = run-get_vote story 4 "bob"

-- ===== src/Governance/Lifecycle/Finalized.antt =====
-- When `finalize` returns, the decision has the status asked for.
use open_data_gov.Prelude.{
  ℕ, ◌≡◌, refl, inl, inr, String, true, false, some, arith, Bool, ◌==◌, nat_eq, Option-cases,
  ==_refl, not,
}
use open_data_gov.Prelude.Exec.{ok}
use open_data_gov.Prelude.Returns.{gets-ok, require-ok, raise_if-ok}
use open_data_gov.Enums.Governance.{DecisionStatus, decision_status_eq, awaiting_approval}
use open_data_gov.Runtime.{Runtime}
use open_data_gov.Models.Promotion.{GovernanceDecision, GovernanceDecisionRow, assemble_promotion}
use open_data_gov.Governance.Session.{World, get_row}
use open_data_gov.Governance.Repository.Decisions
use open_data_gov.Governance.Repository.Decisions.{row_id, assign_decision}
use open_data_gov.Governance.DecisionService.{finalize}
use open_data_gov.Governance.Lifecycle.Rows.{get_row-set_row}
use open_data_gov.Governance.Lifecycle.Updates.{
  moved, find_decision-some, find_decision-none, finalize-moved,
}

module _ ⦃rt : Runtime⦄ where
  -- the row that a decision was read from
  pub find_decision-row :
      (d : ℕ) (w : World) (decision : GovernanceDecision)
      → Decisions.find_decision d w ≡ some decision
      → (row : GovernanceDecisionRow) × (get_row row_id d w.decisions ≡ some row)
        × (decision ≡ assemble_promotion row)
  find_decision-row d w decision found = elim (Option-cases (get_row row_id d w.decisions)) [
    | inl missing ↦ absurd (cc (found, find_decision-none d w missing))
    | inr (row, stored) ↦ (row, stored, ground (arith, found, find_decision-some d row w stored))
  ]

  moved-status :
      (d : ℕ) (row : GovernanceDecisionRow) (s : DecisionStatus) (w w' : World)
      → get_row row_id d w.decisions ≡ some row
      → w'.decisions ≡ moved d row s w
      → (row' : GovernanceDecisionRow) × (get_row row_id d w'.decisions ≡ some row')
        × (row'.status ≡ s)
  unfolding assign_decision assemble_promotion
  moved-status d row s w w' stored e =
      let assign : GovernanceDecisionRow → GovernanceDecisionRow =
        assign_decision (record (assemble_promotion row) { status = s }) (rt.now w.ticks) in
      let read = get_row-set_row row_id assign (λ x. refl) d d w.decisions row stored in
      (assign row, rw (e, read, ==_refl d) refl, refl)

  awaiting_row :
      (decision : GovernanceDecision) (row : GovernanceDecisionRow)
      → decision ≡ assemble_promotion row
      → not (decision.status == awaiting_approval) ≡ false
      → (row.status == awaiting_approval) ≡ true
  unfolding assemble_promotion
  awaiting_row decision row same h = ground (arith, same, h)

  not-false : {b : Bool} → not b ≡ false → b ≡ true
  not-false {b} h = ground (arith, h)

  -- When `finalize` returns, the decision awaited approval and has the final status asked for.
  pub finalize-ok :
      (d : ℕ) (s : DecisionStatus) (a : String) (w : World) (u : GovernanceDecision)
      → (finalize d s a w).0 ≡ ok u
      → (row' : GovernanceDecisionRow) × (get_row row_id d (finalize d s a w).1.decisions
          ≡ some row')
        × (row'.status ≡ s)
  unfolding finalize Decisions.get_by_id
  finalize-ok d s a w u h =
      let (h0, _) = gets-ok _ _ w u h in
      let (decision, found, h1, _) = require-ok _ _ _ w u h0 in
      let (awaits, h2, _) = raise_if-ok _ _ _ w u h1 in
      let (final, _, _) = raise_if-ok _ _ _ w u h2 in
      let (row, stored, same) = find_decision-row d w decision found in
      moved-status d row s w (finalize d s a w).1 stored (
        finalize-moved d s a w row stored (awaiting_row decision row same awaits) (not-false final))

-- ===== src/Governance/Repository/Decisions.antt =====
-- PgDecisionRepository
use open_data_gov.Prelude.{
  ℕ, String, Bool, true, List, Option, none, some, map, select, take, drop, ◌==◌, nat_eq, string_eq,
  if◌then◌else◌,
}
use open_data_gov.Prelude.Exec.{pure, require, lift, gets, modify, ◌>>=◌, ◌>>◌}
use open_data_gov.Prelude.Sort.{order_by_desc}
use open_data_gov.Enums.Governance.{DecisionStatus, decision_status_eq}
use open_data_gov.Runtime.{Runtime}
use open_data_gov.Models.Promotion.{
  GovernanceDecision, GovernanceDecisionRow, assemble_promotion, decision_row,
}
use open_data_gov.Governance.Session.{World, Error, Action, utcnow, add_row, get_row, set_row}

abbrev pub row_id : GovernanceDecisionRow → ℕ
row_id row = row.id

unfoldable pub create : GovernanceDecision → Action GovernanceDecision
create decision = do
  w ← gets (λ w. w)
  rows ← lift (add_row row_id (decision_row decision) w.decisions)
  modify (λ w. record w { decisions = rows })
  pure (assemble_promotion (decision_row decision))

-- the pure part of `get_by_id`
unfoldable pub find_decision : ℕ → World → Option GovernanceDecision
find_decision decision_id w = elim (get_row row_id decision_id w.decisions) [
  | none ↦ none
  | some row ↦ some (assemble_promotion row)
]

unfoldable pub get_by_id : ℕ → Action (Option GovernanceDecision)
get_by_id decision_id = gets (find_decision decision_id)

-- The columns that `update` assigns. `updated_at` gets the value that it has, so the column's
-- `onupdate` default of db/tables.py sets it to the time of the flush.
unfoldable pub assign_decision :
    GovernanceDecision → ℕ → GovernanceDecisionRow → GovernanceDecisionRow
assign_decision decision now row = record row {
  status = decision.status;
  updated_at = now;
  metadata_json = decision.metadata;
}

module _ ⦃rt : Runtime⦄ where
  unfoldable pub update : GovernanceDecision → Action GovernanceDecision
  update decision = do
    w ← gets (λ w. w)
    row ← require Error.decision_not_found (get_row row_id decision.id w.decisions)
    now ← utcnow
    modify (λ w. record w {
      decisions = set_row row_id decision.id (assign_decision decision now) w.decisions;
    })
    pure (assemble_promotion (assign_decision decision now row))

-- A filter of `list_decisions` is skipped when its argument is falsy: None or the empty text.
unfoldable pub in_domain : Option String → GovernanceDecisionRow → Bool
in_domain none row = true
in_domain (some domain_id) row = if domain_id == "" then true else row.domain_id == domain_id

unfoldable pub has_status : Option DecisionStatus → GovernanceDecisionRow → Bool
has_status none row = true
has_status (some status) row = row.status == status

unfoldable pub list_decisions :
    Option String → Option DecisionStatus → ℕ → ℕ → Action (List GovernanceDecision)
list_decisions domain_id status limit offset = gets (λ w. map assemble_promotion (
    take limit (
      drop offset (
        order_by_desc (λ row. row.created_at)
          (select (has_status status) (select (in_domain domain_id) w.decisions))))))

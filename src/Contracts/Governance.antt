-- ===== src/Contracts/Governance.antt =====
-- contracts/governance.py: the approval that a change of a schema needs.
use open_data_gov.Prelude.{
  ℕ, Bool, true, false, not, ◌&&◌, Option, none, some, is_empty, length, any, ◌==◌, string_eq,
  if◌then◌else◌,
}
use open_data_gov.Contracts.Schema.{DataContractSchema}
use open_data_gov.Contracts.Breaking.{Analysis, Change, change_type, detect_breaking_changes}

pub data GovernanceAction : Type 0 where
  no_change auto_approve raci_approval veto_eligible : GovernanceAction

-- The count is there only with breaking changes.
pub record Evaluation : Type 0 where
  pub requires_approval : Bool
  pub change_analysis : Analysis
  pub governance_action : GovernanceAction
  pub breaking_change_count : Option ℕ

-- `c["type"] == "column_removed"`
unfoldable pub is_removal : Change → Bool
is_removal change = change_type change == "column_removed"

unfoldable pub evaluate_contract_change : (old_schema new_schema : DataContractSchema) → Evaluation
evaluate_contract_change old_schema new_schema =
    let analysis = detect_breaking_changes old_schema new_schema in
    if not analysis.has_breaking && is_empty analysis.non_breaking_changes
    then record {
      requires_approval = false;
      change_analysis = analysis;
      governance_action = GovernanceAction.no_change;
      breaking_change_count = none;
    }
    else if not analysis.has_breaking
    then record {
      requires_approval = false;
      change_analysis = analysis;
      governance_action = GovernanceAction.auto_approve;
      breaking_change_count = none;
    }
    else let has_column_removal = any is_removal analysis.breaking_changes in
      record {
        requires_approval = true;
        change_analysis = analysis;
        governance_action =
            if has_column_removal
            then GovernanceAction.veto_eligible
            else GovernanceAction.raci_approval;
        breaking_change_count = some (length analysis.breaking_changes);
      }

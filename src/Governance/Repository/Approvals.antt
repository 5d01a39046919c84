-- ===== src/Governance/Repository/Approvals.antt =====
-- PgApprovalRepository
use open_data_gov.Prelude.{ℕ, String, Bool, ◌&&◌, List, Option, select, ◌==◌, nat_eq, string_eq}
use open_data_gov.Prelude.Exec.{pure, lift, gets, modify, ◌>>=◌, ◌>>◌}
use open_data_gov.Prelude.Sort.{order_by}
use open_data_gov.Models.{ApprovalRecord}
use open_data_gov.Governance.Session.{Action, add_row, scalar_one_or_none}

unfoldable pub create : ApprovalRecord → Action ApprovalRecord
create vote = do
  w ← gets (λ w. w)
  rows ← lift (add_row (λ r. r.id) vote w.approvals)
  modify (λ w. record w { approvals = rows })
  pure vote

unfoldable pub is_vote : ℕ → String → ApprovalRecord → Bool
is_vote decision_id voter_id row = row.decision_id == decision_id && row.voter_id == voter_id

unfoldable pub get_vote : ℕ → String → Action (Option ApprovalRecord)
get_vote decision_id voter_id w =
    (scalar_one_or_none (select (is_vote decision_id voter_id) w.approvals), w)

unfoldable pub list_by_decision : ℕ → Action (List ApprovalRecord)
list_by_decision decision_id =
    gets (λ w. order_by (λ r. r.voted_at) (select (λ r. r.decision_id == decision_id) w.approvals))

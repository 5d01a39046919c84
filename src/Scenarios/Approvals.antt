-- ===== src/Scenarios/Approvals.antt =====
-- The second of two approvals.
use open_data_gov.Prelude.{
  refl, [], ◌∷◌, nat_eq, string_eq, select, any, all, f_string, has_length, text_length,
}
use open_data_gov.Prelude.Sort.{order_by, insert_by, order_by_desc, insert_by_desc}
use open_data_gov.Prelude.Exec.{◌>>=◌}
use open_data_gov.Enums.Governance.{RaciRole, DecisionStatus, VoteValue}
use open_data_gov.Models.{ApprovalRecord}
use open_data_gov.Models.Promotion.{assemble_promotion, fold_promotion}
use open_data_gov.Audit.{compute_hash, payload, seal}
use open_data_gov.Governance.Session.{
  World, get_row, set_row, add_row, utcnow, uuid4, scalar_one_or_none,
}
use open_data_gov.Governance.Construct.{new_audit_event, new_approval, validate}
use open_data_gov.Governance.Repository.Decisions
use open_data_gov.Governance.Repository.Approvals
use open_data_gov.Governance.Repository.Roles
use open_data_gov.Governance.Repository.Events
use open_data_gov.Governance.AuditService.{record_event, or_genesis}
use open_data_gov.Governance.DecisionService.{get_decision, finalize, is_final, final_event}
use open_data_gov.Governance.ApprovalService.{
  cast_vote, settle, check_and_finalize, required_voters, approved_voters, is_required_role,
  is_subset,
}
use open_data_gov.Governance.Consent.Unanimity.{Unanimous-is_subset}
use open_data_gov.Governance.Consent.Completion.{IsApproved, cast_vote-IsApproved}
use open_data_gov.Governance.Consent.Ballot.{IsBallot, cast_vote-IsBallot}
use open_data_gov.Governance.Consent.Rejection.{IsRejected, cast_vote-IsRejected}
use open_data_gov.Scenarios.Toy.{toy, stored, stored_decision}
use open_data_gov.Scenarios.Staff.{assignment}

-- Ann has approved, and Bob has not voted yet.
abbrev half_approved : World
half_approved = record (stored DecisionStatus.awaiting_approval) {
  roles = assignment 1 "ann" RaciRole.accountable ∷ assignment 2 "bob" RaciRole.responsible ∷ [];
  approvals =
      record {
        id = 5;
        decision_id = 4;
        voter_id = "ann";
        voter_role = RaciRole.accountable;
        vote = VoteValue.approve;
        comment = "";
        voted_at = 5;
      }
      ∷ [];
}

cast_vote-IsApproved_example : IsApproved 4 (cast_vote 4 "bob" VoteValue.approve "" half_approved).1
unfolding cast_vote ◌>>=◌ get_row get_decision Decisions.get_by_id Decisions.find_decision
    Roles.get_assignment scalar_one_or_none select Roles.is_assignment assemble_promotion
    fold_promotion Approvals.get_vote Approvals.is_vote new_approval validate Approvals.create
    record_event Events.get_last_hash order_by_desc insert_by_desc new_audit_event compute_hash
    payload seal or_genesis Events.create add_row set_row utcnow uuid4 any f_string has_length
    text_length settle check_and_finalize Roles.list_by_domain Approvals.list_by_decision order_by
    insert_by required_voters approved_voters is_required_role is_subset all finalize is_final
    final_event Decisions.update Decisions.assign_decision
cast_vote-IsApproved_example =
    cast_vote-IsApproved 4 "bob" "" half_approved (stored_decision DecisionStatus.awaiting_approval)
      _ refl refl
      (Unanimous-is_subset 4 "sales" (cast_vote 4 "bob" VoteValue.approve "" half_approved).1 refl
        refl)

cast_vote-IsRejected_example : IsRejected 4 (cast_vote 4 "bob" VoteValue.reject "" half_approved).1
unfolding cast_vote ◌>>=◌ get_row get_decision Decisions.get_by_id Decisions.find_decision
    Roles.get_assignment scalar_one_or_none select Roles.is_assignment assemble_promotion
    fold_promotion Approvals.get_vote Approvals.is_vote new_approval validate Approvals.create
    record_event Events.get_last_hash order_by_desc insert_by_desc new_audit_event compute_hash
    payload seal or_genesis Events.create add_row set_row utcnow uuid4 any f_string has_length
    text_length settle finalize is_final final_event Decisions.update Decisions.assign_decision
cast_vote-IsRejected_example = cast_vote-IsRejected 4 "bob" "" half_approved _ refl

abbrev bobs_vote : ApprovalRecord
bobs_vote = record {
  id = 7;
  decision_id = 4;
  voter_id = "bob";
  voter_role = RaciRole.responsible;
  vote = VoteValue.approve;
  comment = "";
  voted_at = 7;
}

cast_vote-IsBallot_example :
    IsBallot 4 "bob" VoteValue.approve half_approved bobs_vote
      (cast_vote 4 "bob" VoteValue.approve "" half_approved).1.approvals
unfolding cast_vote ◌>>=◌ get_row get_decision Decisions.get_by_id Decisions.find_decision
    Roles.get_assignment scalar_one_or_none select Roles.is_assignment assemble_promotion
    fold_promotion Approvals.get_vote Approvals.is_vote new_approval validate Approvals.create
    record_event Events.get_last_hash order_by_desc insert_by_desc new_audit_event compute_hash
    payload seal or_genesis Events.create add_row set_row utcnow uuid4 any f_string has_length
    text_length settle check_and_finalize Roles.list_by_domain Approvals.list_by_decision order_by
    insert_by required_voters approved_voters is_required_role is_subset all finalize is_final
    final_event Decisions.update Decisions.assign_decision
cast_vote-IsBallot_example =
    cast_vote-IsBallot 4 "bob" VoteValue.approve half_approved "" bobs_vote refl

-- ===== src/Scenarios/Votes.antt =====
-- Votes, vetoes and roles at concrete requests.
use open_data_gov.Prelude.{
  ◌+◌, ◌≡◌, ◌<◌, refl, [], ◌∷◌, Option, none, some, nat_eq, string_eq, select, any, f_string,
  has_length, text_length,
}
use open_data_gov.Prelude.Exec.{ok, ◌>>=◌}
use open_data_gov.Enums.Governance.{RaciRole, DecisionStatus, VoteValue, VetoStatus}
use open_data_gov.Models.{compute_expiry, hours, VetoRecord, RaciAssignment}
use open_data_gov.Models.Promotion.{GovernanceDecision, assemble_promotion, fold_promotion}
use open_data_gov.Governance.Session.{
  World, empty_world, get_row, set_row, add_row, utcnow, uuid4, scalar_one_or_none,
}
use open_data_gov.Governance.Repository.Vetoes
use open_data_gov.Governance.Repository.Events
use open_data_gov.Prelude.Sort.{order_by_desc, insert_by_desc}
use open_data_gov.Governance.AuditService.{record_event, or_genesis}
use open_data_gov.Governance.Construct.{new_veto, new_audit_event, validate}
use open_data_gov.Audit.{compute_hash, payload, seal}
use open_data_gov.Governance.DecisionService.{get_decision, finalize, is_final, final_event}
use open_data_gov.Governance.Repository.Vetoes.{veto_id}
use open_data_gov.Governance.Repository.Decisions
use open_data_gov.Governance.Repository.Roles
use open_data_gov.Governance.VetoService.{
  is_veto_eligible, exercise_veto, role_level, override_veto,
}
use open_data_gov.Governance.Api.{Request, serve, run}
use open_data_gov.Governance.Consent.Cast.{ApprovesByAll}
use open_data_gov.Governance.Consent.Approval.{serve-ApprovesByAll}
use open_data_gov.Governance.Vetoing.Outranking.{Assigned, override_veto-outranks}
use open_data_gov.Governance.Vetoing.Exercised.{IsVetoOf, IsVetoed, exercise_veto-Accepted}
use open_data_gov.Governance.Uniqueness.Assignments.{run-get_assignment}
use open_data_gov.Scenarios.Staff.{assignment}
use open_data_gov.Scenarios.Toy.{stored_decision, toy, story, stored}

abbrev bob_veto : RaciRole → VetoRecord
bob_veto role = record {
  id = 3;
  decision_id = 4;
  vetoed_by = "bob";
  vetoed_by_role = role;
  reason = "too early";
  status = VetoStatus.active;
  vetoed_at = 5;
  expires_at = none;
  overridden_by = none;
  overridden_at = none;
}

-- Ann is accountable and Bob responsible, and Bob has vetoed the decision with a role.
abbrev staffed : RaciRole → DecisionStatus → World
staffed role status = record (stored status) {
  roles = assignment 1 "ann" RaciRole.accountable ∷ assignment 2 "bob" RaciRole.responsible ∷ [];
  vetoes = bob_veto role ∷ [];
}

abbrev awaiting : World
awaiting = staffed RaciRole.responsible DecisionStatus.awaiting_approval

abbrev unvetoed : World
unvetoed = record awaiting { vetoes = [] }

abbrev vetoed : World
vetoed = staffed RaciRole.responsible DecisionStatus.vetoed

serve-ApprovesByAll_example :
    ApprovesByAll awaiting
      (serve (Request.approve_decision 4 "bob" VoteValue.approve "") awaiting).1
serve-ApprovesByAll_example =
    serve-ApprovesByAll (Request.approve_decision 4 "bob" VoteValue.approve "") awaiting

override_veto-outranks_example :
    (veto : VetoRecord) × (get_row veto_id 3 vetoed.vetoes ≡ some veto)
    × (veto.status ≡ VetoStatus.active)
    × (decision : GovernanceDecision) × (Decisions.find_decision veto.decision_id vetoed
        ≡ some decision)
    × (a : RaciAssignment) × Assigned "ann" decision.domain_id a vetoed
    × (role_level veto.vetoed_by_role < role_level a.role)
unfolding override_veto ◌>>=◌ Vetoes.get_by_id get_row get_decision Decisions.get_by_id
    Decisions.find_decision Roles.get_assignment scalar_one_or_none select Roles.is_assignment
    assemble_promotion role_level Vetoes.update record_event Events.get_last_hash order_by_desc
    new_audit_event compute_hash payload seal or_genesis validate Events.create Vetoes.assign_veto
    add_row set_row utcnow uuid4 fold_promotion any insert_by_desc f_string has_length text_length
override_veto-outranks_example = override_veto-outranks 3 "ann" vetoed _ refl

run-get_assignment_example :
    (o : Option RaciAssignment) × ((Roles.get_assignment "ann" "sales" (run empty_world story)).0
      ≡ ok o)
run-get_assignment_example = run-get_assignment story "ann" "sales"

exercise_veto-Accepted_example :
    IsVetoOf "bob"
      (stored_decision DecisionStatus.awaiting_approval)
      (record (bob_veto RaciRole.responsible) {
        id = 7;
        vetoed_at = 7;
        expires_at = some (7 + hours 24);
      })
      unvetoed
    × IsVetoed 4 (exercise_veto 4 "bob" "too early" unvetoed).1
unfolding exercise_veto ◌>>=◌ get_row get_decision Decisions.get_by_id Decisions.find_decision
    Roles.get_assignment scalar_one_or_none select Roles.is_assignment assemble_promotion
    fold_promotion is_veto_eligible new_veto compute_expiry Vetoes.create Vetoes.veto_row finalize
    is_final final_event Decisions.update Decisions.assign_decision record_event
    Events.get_last_hash order_by_desc new_audit_event compute_hash payload seal or_genesis validate
    Events.create add_row set_row utcnow uuid4 any insert_by_desc f_string has_length text_length
exercise_veto-Accepted_example =
    exercise_veto-Accepted 4 "bob" (stored_decision DecisionStatus.awaiting_approval) unvetoed
      "too early" _ refl refl

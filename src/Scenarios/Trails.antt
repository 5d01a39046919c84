-- ===== src/Scenarios/Trails.antt =====
-- The audit trail at concrete events and requests.
use open_data_gov.Prelude.{
  ℕ, suc, ◌≡◌, refl, ◌↔◌, ◌⊎◌, true, List, [], ◌∷◌, nat_eq, arith, take, select, any, f_string,
  has_length, text_length,
}
use open_data_gov.Prelude.Exec.{ok, require, pure, raise, gets, modify, raise_if, lift, ◌>>=◌}
use open_data_gov.Prelude.Sort.{IsIncreasing, order_by_desc, insert_by_desc}
use open_data_gov.Models.Promotion.{fold_promotion, assemble_promotion, decision_row}
use open_data_gov.Governance.Construct.{new_audit_event, new_decision, new_assignment, validate}
use open_data_gov.Governance.DecisionService.{create_decision}
use open_data_gov.Governance.RoleService.{assign_role}
use open_data_gov.Governance.Repository.Events
use open_data_gov.Governance.Repository.Events.{occurred_at}
use open_data_gov.Governance.Repository.Decisions
use open_data_gov.Governance.Repository.Roles
use open_data_gov.Enums.Governance.{DecisionStatus}
use open_data_gov.Audit.{
  AuditEvent, genesis_hash, seal, compute_hash, payload, verify, verify_links, verify_chain,
}
use open_data_gov.Audit.Chain.{IsChain, verify_chain_iff}
use open_data_gov.Audit.Tamper.{Agree, Collide, verify_chain_tamper_evident}
use open_data_gov.Governance.Session.{
  empty_world, uuid4, utcnow, add_row, scalar_one_or_none, transaction,
}
use open_data_gov.Governance.AuditService.{verify_integrity, record_event, or_genesis}
use open_data_gov.Governance.Api.{Request, run, serve, body_fits, handle, error_status}
use open_data_gov.Governance.Trail.Integrity.{run-verify_integrity}
use open_data_gov.Governance.Trail.Growth.{Appends, run-Appends}
use open_data_gov.Scenarios.Toy.{toy, toy-IsRegular, story, stored, stored_event}
use open_data_gov.Scenarios.Encoder.{
  injective, injective-IsReadable, write_payload, write_json, write_text, write_scalar,
  write_details, scalar_kind, scalar_text,
}

-- two logs that differ in the identifiers of their events
unfoldable log : (id : ℕ) → List AuditEvent
unfolding seal compute_hash payload
log id =
    let first : AuditEvent = seal ⦃rt = injective⦄ (stored_event id 1) in
    let second : AuditEvent =
      seal ⦃rt = injective⦄
        (record (stored_event (suc id) 2) { previous_hash = first.event_hash }) in
    first ∷ second ∷ []

-- Ann becomes accountable, Bob responsible, and Ann makes a decision.
abbrev opening : List Request
opening = take 3 story

opening-IsIncreasing : IsIncreasing occurred_at (run empty_world opening).events
unfolding run serve body_fits has_length text_length transaction handle error_status assign_role
    create_decision record_event or_genesis new_audit_event new_decision new_assignment validate
    uuid4 utcnow add_row scalar_one_or_none Decisions.create Events.create Events.get_last_hash
    Roles.create Roles.get_assignment Roles.is_assignment Roles.add_assignment fold_promotion
    assemble_promotion decision_row require pure raise gets modify raise_if ◌>>=◌ seal compute_hash
    payload select any f_string order_by_desc insert_by_desc lift
opening-IsIncreasing = (omega arith, (omega arith, tt))

run-verify_integrity_example : (verify_integrity 1000 (run empty_world opening)).0 ≡ ok true
run-verify_integrity_example = run-verify_integrity toy-IsRegular opening 1000 opening-IsIncreasing

run-Appends_example :
    Appends (stored DecisionStatus.pending) (run (stored DecisionStatus.pending) story)
run-Appends_example = run-Appends (stored DecisionStatus.pending) story

verify_chain_iff_example :
    (verify_chain ⦃rt = injective⦄ (log 1) ≡ true) ↔ IsChain ⦃rt = injective⦄ genesis_hash (log 1)
verify_chain_iff_example = verify_chain_iff ⦃rt = injective⦄ (log 1)

verify_chain_tamper_evident_example :
    Agree (log 1) (log 5) ⊎ Collide ⦃rt = injective⦄ (log 1) (log 5)
unfolding verify_chain verify verify_links seal compute_hash log write_payload write_text write_json
    write_scalar scalar_kind scalar_text write_details
verify_chain_tamper_evident_example =
    verify_chain_tamper_evident ⦃rt = injective⦄ injective-IsReadable (log 1) (log 5) refl refl refl
      refl

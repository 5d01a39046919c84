-- ===== src/Governance/Trail/Services.antt =====
-- Only `record_event` writes the trail: a relation that holds where the events stay, and that
-- `record_event` keeps, is kept by every operation.
use open_data_gov.Prelude.{ℕ, String, List, ◌≡◌, refl}
use open_data_gov.Prelude.Exec.{modify}
use open_data_gov.Prelude.Follows.{Follows, IsPreorder, follows_rules}
use open_data_gov.Enums.Governance.{AuditEventType, DecisionStatus}
use open_data_gov.Runtime.{Runtime, Details}
use open_data_gov.Models.{ApprovalRecord, VetoRecord, RaciAssignment}
use open_data_gov.Models.Promotion.{GovernanceDecisionRow}
use open_data_gov.Governance.Session.{World, Error, uuid4, utcnow}
use open_data_gov.Governance.Repository.Decisions
use open_data_gov.Governance.Repository.Approvals
use open_data_gov.Governance.Repository.Vetoes
use open_data_gov.Governance.Repository.Roles
use open_data_gov.Governance.AuditService.{record_event}
use open_data_gov.Governance.DecisionService.{submit_for_approval, finalize}
use open_data_gov.Governance.Respects.{Respects}

module _ ⦃rt : Runtime⦄ {R : World → World → Type 0} (pre : IsPreorder R)
    (silent : (w w' : World) → w'.events ≡ w.events → R w w')
    (log : (t : AuditEventType) (a b c d : String) (details : Details)
      → Follows R (record_event t a b c d details)) where
  preorder : IsPreorder R
  preorder = pre

  log-Follows :
      (t : AuditEventType) (a b c d : String) (details : Details)
      → Follows R (record_event t a b c d details)
  log-Follows = log

  uuid4-Follows : Follows R uuid4
  unfolding uuid4
  uuid4-Follows = record { at = λ w. silent w _ refl }

  utcnow-Follows : Follows R utcnow
  unfolding utcnow
  utcnow-Follows = record { at = λ w. silent w _ refl }

  decisions-Follows :
      (f : World → List GovernanceDecisionRow)
      → Follows {E = Error} R (modify (λ w. record w { decisions = f w }))
  unfolding modify
  decisions-Follows f = record { at = λ w. silent w _ refl }

  approvals-Follows :
      (f : World → List ApprovalRecord)
      → Follows {E = Error} R (modify (λ w. record w { approvals = f w }))
  unfolding modify
  approvals-Follows f = record { at = λ w. silent w _ refl }

  vetoes-Follows :
      (f : World → List VetoRecord)
      → Follows {E = Error} R (modify (λ w. record w { vetoes = f w }))
  unfolding modify
  vetoes-Follows f = record { at = λ w. silent w _ refl }

  roles-Follows :
      (f : World → List RaciAssignment)
      → Follows {E = Error} R (modify (λ w. record w { roles = f w }))
  unfolding modify
  roles-Follows f = record { at = λ w. silent w _ refl }

  ruleset silent_rules = (
    follows_rules, preorder, log-Follows, uuid4-Follows, utcnow-Follows, decisions-Follows,
    approvals-Follows, vetoes-Follows, roles-Follows,
  )

  submit-Follows : (d : ℕ) (a : String) → Follows R (submit_for_approval d a)
  unfolding submit_for_approval Decisions.get_by_id Decisions.update
  submit-Follows d a = search silent_rules depth 30

  finalize-Follows : (d : ℕ) (s : DecisionStatus) (a : String) → Follows R (finalize d s a)
  unfolding finalize Decisions.get_by_id Decisions.update
  finalize-Follows d s a = search silent_rules depth 30

  pub silent-Respects : Respects R
  unfolding Decisions.create Approvals.create Vetoes.create Vetoes.update Roles.create Roles.delete
  silent-Respects = record {
    preorder = pre;
    draw_id = uuid4-Follows;
    draw_time = utcnow-Follows;
    new_row = λ d. search silent_rules depth 12;
    submitted = submit-Follows;
    finalized = finalize-Follows;
    vote_added = λ v. search silent_rules depth 12;
    veto_added = λ v. search silent_rules depth 12;
    veto_updated = λ v. search silent_rules depth 12;
    role_added = λ a. search silent_rules depth 12;
    role_deleted = λ i. roles-Follows _;
    logged = log;
  }

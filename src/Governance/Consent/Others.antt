-- ===== src/Governance/Consent/Others.antt =====
-- No other operation approves a decision.
use open_data_gov.Prelude.{
  ℕ, ◌≡◌, refl, inl, inr, String, List, Option, any, ◌==◌, nat_eq, Bool-cases,
}
use open_data_gov.Prelude.Exec.{modify, ◌>>=◌}
use open_data_gov.Prelude.Follows.{Follows, IsPreorder, follows_rules}
use open_data_gov.Enums.Governance.{
  AuditEventType, DecisionType, RaciRole, vetoed, pending, awaiting_approval,
}
use open_data_gov.Runtime.{Runtime, Details}
use open_data_gov.Models.{VetoRecord, RaciAssignment}
use open_data_gov.Models.Promotion.{GovernanceDecision, PromotionMetadata, decision_row}
use open_data_gov.Governance.Session.{World, Error, uuid4, utcnow, add_row}
use open_data_gov.Governance.Construct.{validate, new_decision, new_veto, new_assignment}
use open_data_gov.Governance.Repository.Decisions
use open_data_gov.Governance.Repository.Decisions.{row_id}
use open_data_gov.Governance.Repository.Vetoes
use open_data_gov.Governance.Repository.Roles
use open_data_gov.Governance.AuditService.{record_event}
use open_data_gov.Governance.DecisionService.{
  get_decision, create_decision, submit_for_approval, finalize,
}
use open_data_gov.Governance.VetoService.{exercise_veto, override_veto}
use open_data_gov.Governance.RoleService.{assign_role, revoke_role}
use open_data_gov.Governance.Lifecycle.Rows.{get_row-append}
use open_data_gov.Governance.Lifecycle.Frame.{record_event-SameTables}
use open_data_gov.Governance.Lifecycle.Updates.{submit-Moves, finalize-Moves}
use open_data_gov.Governance.Consent.Settled.{Settled, Settled-IsPreorder, unsettled, Moves-Settled}

abbrev AnyFrame : World → World → Type 0
AnyFrame w w' = Unit

abbrev NoReason : ℕ → World → Type 0
NoReason key w = ⊥

-- Stored decisions stay stored, and none is newly approved.
abbrev pub ApprovesNone : World → World → Type 0
ApprovesNone = Settled AnyFrame NoReason

pub ApprovesNone-IsPreorder : IsPreorder ApprovesNone
ApprovesNone-IsPreorder =
    Settled-IsPreorder AnyFrame NoReason
      (record { reflexive = λ w. tt; transitive = λ a b c f g. tt }) (λ key t u f j. j)

calm : (w w' : World) → w'.decisions ≡ w.decisions → ApprovesNone w w'
calm w w' e = unsettled AnyFrame NoReason w w' tt e

create-ApprovesNone : (d : GovernanceDecision) → Follows ApprovesNone (Decisions.create d)
unfolding Decisions.create add_row ◌>>=◌
create-ApprovesNone d = record {
  at = λ w. elim (Bool-cases (any (λ r. row_id r == row_id (decision_row d)) w.decisions)) [
    | inl taken ↦ rw taken (calm w w refl)
    | inr fresh ↦ rw fresh (record {
      frame = tt;
      kept = λ key row h. (row, get_row-append row_id key w.decisions row (decision_row d) h, inl);
    })
  ];
}

vetoes-ApprovesNone :
    (f : World → List VetoRecord)
    → Follows {E = Error} ApprovesNone (modify (λ w. record w { vetoes = f w }))
unfolding modify
vetoes-ApprovesNone f = record { at = λ w. calm w _ refl }

roles-ApprovesNone :
    (f : World → List RaciAssignment)
    → Follows {E = Error} ApprovesNone (modify (λ w. record w { roles = f w }))
unfolding modify
roles-ApprovesNone f = record { at = λ w. calm w _ refl }

get_assignment-ApprovesNone : (u e : String) → Follows ApprovesNone (Roles.get_assignment u e)
unfolding Roles.get_assignment
get_assignment-ApprovesNone u e = record { at = λ w. calm w w refl }

module _ ⦃rt : Runtime⦄ where
  uuid4-ApprovesNone : Follows ApprovesNone uuid4
  unfolding uuid4
  uuid4-ApprovesNone = record { at = λ w. calm w _ refl }

  utcnow-ApprovesNone : Follows ApprovesNone utcnow
  unfolding utcnow
  utcnow-ApprovesNone = record { at = λ w. calm w _ refl }

  record_event-ApprovesNone :
      (t : AuditEventType) (a b c e : String) (details : Details)
      → Follows ApprovesNone (record_event t a b c e details)
  record_event-ApprovesNone t a b c e details = record {
    at = λ w. calm w _ ((record_event-SameTables t a b c e details).at w).decisions;
  }

  pub submit-ApprovesNone : (d : ℕ) (a : String) → Follows ApprovesNone (submit_for_approval d a)
  submit-ApprovesNone d a = record {
    at = λ w.
        Moves-Settled AnyFrame NoReason d pending awaiting_approval w (submit_for_approval d a w).1
          tt (λ e. absurd (cc)) (submit-Moves d a w);
  }

  veto-ApprovesNone : (d : ℕ) (a : String) → Follows ApprovesNone (finalize d vetoed a)
  veto-ApprovesNone d a = record {
    at = λ w. elim (finalize-Moves d vetoed a w) [
      | inl (_, m) ↦
          Moves-Settled AnyFrame NoReason d awaiting_approval vetoed w (finalize d vetoed a w).1 tt
            (λ e. absurd (cc)) m
      | inr e ↦ calm w _ e
    ];
  }

  ruleset calm_rules = (
    follows_rules, ApprovesNone-IsPreorder, create-ApprovesNone, vetoes-ApprovesNone,
    roles-ApprovesNone, get_assignment-ApprovesNone, uuid4-ApprovesNone, utcnow-ApprovesNone,
    record_event-ApprovesNone, veto-ApprovesNone,
  )

  pub create_decision-ApprovesNone :
      (t : DecisionType) (a b c d : String) (p : Option PromotionMetadata) (m : Details)
      → Follows ApprovesNone (create_decision t a b c d p m)
  unfolding create_decision new_decision validate
  create_decision-ApprovesNone t a b c d p m = search calm_rules depth 30

  pub exercise_veto-ApprovesNone :
      (d : ℕ) (a b : String) → Follows ApprovesNone (exercise_veto d a b)
  unfolding exercise_veto get_decision Decisions.get_by_id new_veto validate Vetoes.create
  exercise_veto-ApprovesNone d a b = search calm_rules depth 40

  pub override_veto-ApprovesNone : (v : ℕ) (a : String) → Follows ApprovesNone (override_veto v a)
  unfolding override_veto Vetoes.get_by_id get_decision Decisions.get_by_id Vetoes.update
  override_veto-ApprovesNone v a = search calm_rules depth 40

  pub assign_role-ApprovesNone :
      (u d : String) (r : RaciRole) (a : String) → Follows ApprovesNone (assign_role u d r a)
  unfolding assign_role new_assignment validate Roles.create
  assign_role-ApprovesNone u d r a = search calm_rules depth 40

  pub revoke_role-ApprovesNone : (i : ℕ) (a : String) → Follows ApprovesNone (revoke_role i a)
  unfolding revoke_role Roles.get_by_id Roles.delete
  revoke_role-ApprovesNone i a = search calm_rules depth 40

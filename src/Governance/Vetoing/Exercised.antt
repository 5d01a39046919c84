-- ===== src/Governance/Vetoing/Exercised.antt =====
-- What a veto that is accepted has done.
use open_data_gov.Prelude.{
  ℕ, ◌+◌, ◌≡◌, ap, ◌∙◌, subst, String, true, false, not, Option, some, arith, ◌==◌, if◌then◌else◌,
  nat_eq,
}
use open_data_gov.Prelude.Exec.{ok, pure, ◌>>=◌, ◌>>◌}
use open_data_gov.Prelude.Returns.{
  Ensures, Ensures-gets, Ensures-bind, Ensures-require, Ensures-raise_if,
}
use open_data_gov.Enums.Governance.{
  RaciRole, DecisionType, decision_type_eq, DecisionStatus, VetoStatus, AuditEventType,
}
use open_data_gov.Runtime.{Runtime, Details}
use open_data_gov.Models.{VetoRecord, RaciAssignment, compute_expiry, hours}
use open_data_gov.Models.Promotion.{GovernanceDecision, GovernanceDecisionRow, assemble_promotion}
use open_data_gov.Governance.Session.{World, Error, get_row, add_row, uuid4, utcnow}
use open_data_gov.Governance.Construct.{new_veto, validate}
use open_data_gov.Governance.Repository.Vetoes
use open_data_gov.Governance.Repository.Vetoes.{veto_row}
use open_data_gov.Governance.Repository.Roles
use open_data_gov.Governance.Repository.Decisions
use open_data_gov.Governance.Repository.Decisions.{row_id}
use open_data_gov.Governance.AuditService.{record_event}
use open_data_gov.Governance.DecisionService.{get_decision, finalize}
use open_data_gov.Governance.VetoService.{is_veto_eligible, exercise_veto}
use open_data_gov.Governance.Lifecycle.Frame.{record_event-SameTables}
use open_data_gov.Governance.Lifecycle.Updates.{find_decision-some}
use open_data_gov.Governance.Lifecycle.Finalized.{finalize-ok}
use open_data_gov.Governance.Vetoing.Outranking.{Assigned, get_assignment-Assigned}

-- The decision is stored, and vetoed.
abbrev pub IsVetoed : ℕ → World → Type 0
IsVetoed d w =
    (row : GovernanceDecisionRow) × (get_row row_id d w.decisions ≡ some row)
    × (row.status ≡ DecisionStatus.vetoed)

-- An active veto by a user who may veto in the decision's domain, which runs for an hour where the
-- decision is an emergency and for a day where it is not.
abbrev pub IsVetoOf : String → GovernanceDecisionRow → VetoRecord → World → Type 0
IsVetoOf vetoed_by row veto w =
    (a : RaciAssignment) × Assigned vetoed_by row.domain_id a w
    × (is_veto_eligible a.role ≡ true)
    × (veto.vetoed_by_role ≡ a.role)
    × (veto.status ≡ VetoStatus.active)
    × (veto.expires_at
        ≡ some (
            veto.vetoed_at
            + (if row.decision_type == DecisionType.emergency then hours 1 else hours 24)))

module _ ⦃rt : Runtime⦄ where
  new_veto-ok :
      (d : ℕ) (by : String) (role : RaciRole) (reason : String) (w : World) (veto : VetoRecord)
      → (new_veto d by role reason w).0 ≡ ok veto
      → (veto.vetoed_by_role ≡ role) × (veto.status ≡ VetoStatus.active)
  unfolding new_veto uuid4 utcnow validate ◌>>=◌
  new_veto-ok d by role reason w veto h = ground (arith, h)

  create-ok :
      (veto saved : VetoRecord) (w : World)
      → (Vetoes.create veto w).0 ≡ ok saved
      → saved ≡ veto_row veto
  unfolding Vetoes.create add_row ◌>>=◌
  create-ok veto saved w h = ground (arith, h)

  returned : {A : Type 0} (x y : A) (s : World) → (pure {E = Error} x s).0 ≡ ok y → x ≡ y
  unfolding pure
  returned x y s h = ground (arith, h)

  module _ (d : ℕ) (by : String) (row : GovernanceDecisionRow) (w : World) where
    abbrev Accepted : VetoRecord → World → Type 0
    Accepted veto w' = IsVetoOf by row veto w × IsVetoed d w'

    veto_facts :
        (decision : GovernanceDecision) (o : Option RaciAssignment) (a : RaciAssignment)
        (veto saved : VetoRecord)
        → decision ≡ assemble_promotion row
        → (Roles.get_assignment by decision.domain_id w).0 ≡ ok o
        → o ≡ some a
        → not (is_veto_eligible a.role) ≡ false
        → (veto.vetoed_by_role ≡ a.role) × (veto.status ≡ VetoStatus.active)
        → saved
          ≡ veto_row (record veto {
            expires_at =
                some (compute_expiry veto (decision.decision_type == DecisionType.emergency));
          })
        → IsVetoOf by row saved w
    unfolding assemble_promotion veto_row compute_expiry
    veto_facts decision o a veto saved same looked_up is_a eligible made stored = (
      a,
      subst (λ dom. Assigned by dom a w) (ap (λ (x : GovernanceDecision). x.domain_id) same)
          (get_assignment-Assigned by decision.domain_id a w (looked_up ∙ ap ok is_a)),
      ground (arith, eligible),
      ground (arith, stored, made),
      ground (arith, stored, made),
      ground (arith, stored, same),
    )

    recorded :
        (t : AuditEventType) (x y z m : String) (details : Details) (saved : VetoRecord) (s : World)
        → IsVetoOf by row saved w
        → IsVetoed d s
        → Ensures Accepted (record_event t x y z m details >> pure saved) s
    unfolding pure
    recorded t x y z m details saved s facts (row', found, status) =
        Ensures-bind Accepted (record_event t x y z m details) _ s λ e _ veto h.
          let tables = (record_event-SameTables t x y z m details).at s in
          (
            subst (λ v. IsVetoOf by row v w) (returned saved veto s h) facts,
            (row', rw tables.decisions found, status),
          )

    read_decision :
        (decision : GovernanceDecision)
        → get_row row_id d w.decisions ≡ some row
        → Decisions.find_decision d w ≡ some decision
        → decision ≡ assemble_promotion row
    read_decision decision stored found = ground (arith, found, find_decision-some d row w stored)

    -- When a veto is accepted, it was exercised by a user with a responsible or accountable role in
    -- the decision's domain, it is active and runs for an hour in an emergency and for a day
    -- otherwise, and the decision is vetoed.
    pub exercise_veto-Accepted :
        (reason : String) (veto : VetoRecord)
        → get_row row_id d w.decisions ≡ some row
        → (exercise_veto d by reason w).0 ≡ ok veto
        → IsVetoOf by row veto w × IsVetoed d (exercise_veto d by reason w).1
    unfolding exercise_veto get_decision Decisions.get_by_id
    exercise_veto-Accepted reason veto stored done =
        Ensures-gets Accepted _ _ w
          (Ensures-require Accepted _ _ _ w λ decision found.
            let same = read_decision decision stored found in
            Ensures-raise_if Accepted _ _ _ w λ awaits.
              Ensures-bind Accepted (Roles.get_assignment by decision.domain_id) _ w λ o looked_up.
                Ensures-require Accepted _ _ _ _ λ a is_a.
                  Ensures-raise_if Accepted _ _ _ _ λ eligible.
                    Ensures-bind Accepted (new_veto d by a.role reason) _ _ λ veto made.
                      Ensures-bind Accepted (Vetoes.create _) _ _ λ saved kept.
                        Ensures-bind Accepted (finalize d DecisionStatus.vetoed by) _ _ λ u settled.
                          recorded _ _ _ _ _ _ saved _
                            (veto_facts decision o a veto saved same looked_up is_a eligible
                              (new_veto-ok d by a.role reason _ veto made)
                              (create-ok _ saved _ kept))
                            (finalize-ok d DecisionStatus.vetoed by _ u settled))
          veto done

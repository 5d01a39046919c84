-- ===== src/Governance/Lifecycle/Updates.antt =====
-- What `submit_for_approval` and `finalize` do to the table of decisions.
use open_data_gov.Prelude.{
  ℕ, ◌≡◌, refl, ◌⊎◌, inl, inr, String, true, List, none, some, ◌==◌, Option-cases, Bool-cases,
  f_string, [], ◌∷◌, ==_sound,
}
use open_data_gov.Prelude.Exec.{pure, ◌>>=◌, ◌>>◌, continue}
use open_data_gov.Prelude.Follows.{Follows, Follows-bind, Follows-pure}
use open_data_gov.Enums.Governance.{
  AuditEventType, decision_status_value, DecisionStatus, decision_status_eq,
}
use open_data_gov.Runtime.{Runtime, Details}
use open_data_gov.Models.Promotion.{GovernanceDecision, GovernanceDecisionRow, assemble_promotion}
use open_data_gov.Governance.Session.{World, Action, get_row, set_row, utcnow}
use open_data_gov.Governance.Repository.Decisions
use open_data_gov.Governance.Repository.Decisions.{row_id, assign_decision}
use open_data_gov.Governance.AuditService.{record_event}
use open_data_gov.Governance.DecisionService.{submit_for_approval, finalize, is_final, final_event}
use open_data_gov.Governance.Lifecycle.Rows.{get_row-id}
use open_data_gov.Governance.Lifecycle.Frame.{
  SameTables, SameTables-IsPreorder, record_event-SameTables,
}

module _ ⦃rt : Runtime⦄ where
  -- the rows after the row of `decision_id` has got a status, at the clock's next reading
  abbrev pub moved : ℕ → GovernanceDecisionRow → DecisionStatus → World → List GovernanceDecisionRow
  moved decision_id row status w =
      set_row row_id decision_id
        (assign_decision (record (assemble_promotion row) { status = status }) (rt.now w.ticks))
        w.decisions

  -- Either nothing was written to the table, or the row had status `before` and has moved to `after`.
  abbrev pub Moves : ℕ → DecisionStatus → DecisionStatus → World → World → Type 0
  Moves decision_id before after w w' =
      (w'.decisions ≡ w.decisions)
      ⊎ ((row : GovernanceDecisionRow) × (get_row row_id decision_id w.decisions ≡ some row)
          × (row.status ≡ before)
          × (w'.decisions ≡ moved decision_id row after w))

  stored_id :
      (d : ℕ) (row : GovernanceDecisionRow) (w : World)
      → get_row row_id d w.decisions ≡ some row
      → row.id ≡ d
  stored_id d row w found = get_row-id row_id d w.decisions row found

  pub update_then :
      {A : Type 0} (d : ℕ) (row : GovernanceDecisionRow) (status : DecisionStatus)
      (next : GovernanceDecision → Action A) (w : World)
      → ((u : GovernanceDecision) → Follows SameTables (next u))
      → get_row row_id d w.decisions ≡ some row
      → ((Decisions.update (record (assemble_promotion row) { status = status }) >>= next)
          w).1.decisions
        ≡ moved d row status w
  unfolding Decisions.update utcnow assemble_promotion ◌>>=◌
  update_then d row status next w quiet found =
      rw (stored_id d row w found, found, continue) ((quiet _).at _).decisions

  pub record_then :
      {A : Type 0} (t : AuditEventType) (a b c e : String) (details : Details) (x : A)
      → Follows SameTables (record_event t a b c e details >> pure x)
  record_then t a b c e details x =
      Follows-bind SameTables-IsPreorder _ _ (record_event-SameTables t a b c e details)
        λ _. Follows-pure SameTables-IsPreorder x

  pub find_decision-some :
      (d : ℕ) (row : GovernanceDecisionRow) (w : World)
      → get_row row_id d w.decisions ≡ some row
      → Decisions.find_decision d w ≡ some (assemble_promotion row)
  unfolding Decisions.find_decision
  find_decision-some d row w found = rw (found, Decisions.find_decision)

  pub find_decision-none :
      (d : ℕ) (w : World) → get_row row_id d w.decisions ≡ none → Decisions.find_decision d w ≡ none
  unfolding Decisions.find_decision
  find_decision-none d w missing = rw (missing, Decisions.find_decision)

  -- `submit_for_approval` moves a pending decision to AWAITING_APPROVAL, and writes nothing else.
  pub submit-Moves :
      (d : ℕ) (a : String) (w : World)
      → Moves d DecisionStatus.pending DecisionStatus.awaiting_approval w
          (submit_for_approval d a w).1
  unfolding submit_for_approval Decisions.get_by_id assemble_promotion ◌>>=◌
  submit-Moves d a w = elim (Option-cases (get_row row_id d w.decisions)) [
    | inl missing ↦ inl (rw (find_decision-none d w missing) refl)
    | inr (row, found) ↦ elim (Bool-cases (row.status == DecisionStatus.pending)) [
      | inl is_pending ↦ inr (
        row,
        found,
        ==_sound _ _ is_pending,
        rw (find_decision-some d row w found, is_pending)
            (update_then d row DecisionStatus.awaiting_approval _ w
              (λ u.
                record_then AuditEventType.decision_submitted "decision" (rt.uuid_text d) a
                  (f_string ("Decision submitted for approval: " ∷ row.title ∷ [])) [] u)
              found),
      )
      | inr other ↦ inl (rw (find_decision-some d row w found, other) refl)
    ]
  ]

  -- what `finalize` writes once its tests have passed
  pub finalize-moved :
      (d : ℕ) (status : DecisionStatus) (a : String) (w : World) (row : GovernanceDecisionRow)
      → get_row row_id d w.decisions ≡ some row
      → (row.status == DecisionStatus.awaiting_approval) ≡ true
      → is_final status ≡ true
      → (finalize d status a w).1.decisions ≡ moved d row status w
  unfolding finalize Decisions.get_by_id assemble_promotion ◌>>=◌
  finalize-moved d status a w row found is_awaiting final =
      rw (find_decision-some d row w found, is_awaiting, final)
        (update_then d row status _ w
          (λ u.
            record_then (final_event status) "decision" (rt.uuid_text d) a
              (f_string
                ("Decision finalized as " ∷ decision_status_value status ∷ ": " ∷ row.title ∷ []))
              [] u)
          found)

  -- `finalize` moves a decision that awaits approval to the final status asked for, or writes nothing.
  pub finalize-Moves :
      (d : ℕ) (status : DecisionStatus) (a : String) (w : World)
      → (is_final status ≡ true)
          × Moves d DecisionStatus.awaiting_approval status w (finalize d status a w).1
        ⊎ ((finalize d status a w).1.decisions ≡ w.decisions)
  unfolding finalize Decisions.get_by_id assemble_promotion ◌>>=◌
  finalize-Moves d status a w = elim (Option-cases (get_row row_id d w.decisions)) [
    | inl missing ↦ inr (rw (find_decision-none d w missing) refl)
    | inr (row, found) ↦ elim (Bool-cases (row.status == DecisionStatus.awaiting_approval)) [
      | inl is_awaiting ↦ elim (Bool-cases (is_final status)) [
        | inl final ↦ inl (
          final,
          inr (
            row,
            found,
            ==_sound _ _ is_awaiting,
            finalize-moved d status a w row found is_awaiting final,
          ),
        )
        | inr open_status ↦
            inr (rw (find_decision-some d row w found, is_awaiting, open_status) refl)
      ]
      | inr other ↦ inr (rw (find_decision-some d row w found, other) refl)
    ]
  ]

-- ===== src/Governance/Consent/Settled.antt =====
-- Steps that approve a decision only for a reason `J`, within a frame `F`.
use open_data_gov.Prelude.{ℕ, ◌≡◌, refl, ◌⊎◌, inl, inr, some, ◌==◌, nat_eq, Bool-cases, ==_sound}
use open_data_gov.Prelude.Follows.{IsPreorder}
use open_data_gov.Enums.Governance.{DecisionStatus, approved}
use open_data_gov.Runtime.{Runtime}
use open_data_gov.Models.Promotion.{GovernanceDecisionRow, assemble_promotion}
use open_data_gov.Governance.Session.{World, get_row}
use open_data_gov.Governance.Repository.Decisions.{row_id, assign_decision}
use open_data_gov.Governance.Lifecycle.Rows.{get_row-set_row}
use open_data_gov.Governance.Lifecycle.Updates.{Moves}

-- A stored decision stays stored, and is approved only if it was, or for the reason `J`.
abbrev pub Keeps : Type 0 → GovernanceDecisionRow → ℕ → World → Type 0
Keeps J row key w' =
    (row' : GovernanceDecisionRow) × (get_row row_id key w'.decisions ≡ some row')
    × (row'.status ≡ approved → (row.status ≡ approved) ⊎ J)

module _ (F : World → World → Type 0) (J : ℕ → World → Type 0) where
  pub record Settled (w w' : World) : Type 0 where
    pub frame : F w w'
    pub kept :
        (key : ℕ) (row : GovernanceDecisionRow)
        → get_row row_id key w.decisions ≡ some row
        → Keeps (J key w') row key w'

  pub unsettled : (w w' : World) → F w w' → w'.decisions ≡ w.decisions → Settled w w'
  unsettled w w' f e = record { frame = f; kept = λ key row h. (row, rw e h, inl) }

  module _ (pre : IsPreorder F) (mono : (key : ℕ) (t u : World) → F t u → J key t → J key u) where
    pub Settled-IsPreorder : IsPreorder Settled
    Settled-IsPreorder = record {
      reflexive = λ w. unsettled w w (pre.reflexive w) refl;
      transitive = λ a b c f g. record {
        frame = pre.transitive a b c f.frame g.frame;
        kept = λ key row h.
            let (row', found, reason) = f.kept key row h in
            let (row'', found', reason') = g.kept key row' found in
            (
              row'',
              found',
              λ e. elim (reason' e) [
                | inl before ↦ elim (reason before) [
                  | inl long ↦ inl long
                  | inr j ↦ inr (mono key b c g.frame j)
                ]
                | inr j ↦ inr j
              ],
            );
      };
    }

  module _ ⦃rt : Runtime⦄ where
    -- a decision that moves to another status than approved, or is approved for the reason
    pub Moves-Settled :
        (d : ℕ) (before after : DecisionStatus) (w w' : World)
        → F w w'
        → (after ≡ approved → J d w')
        → Moves d before after w w'
        → Settled w w'
    unfolding assign_decision assemble_promotion
    Moves-Settled d before after w w' f reason (inl e) = unsettled w w' f e
    Moves-Settled d before after w w' f reason (inr (r, found, _, e)) = record {
      frame = f;
      kept = λ key row h.
          let assign : GovernanceDecisionRow → GovernanceDecisionRow =
            assign_decision (record (assemble_promotion r) { status = after }) (rt.now w.ticks) in
          let read = get_row-set_row row_id assign (λ x. refl) d key w.decisions row h in
          elim (Bool-cases (key == d)) [
            | inl same ↦ (
              assign row,
              rw (e, read, same) refl,
              λ now. inr (rw (==_sound key d same) (reason now)),
            )
            | inr other ↦ (row, rw (e, read, other) refl, inl)
          ];
    }

-- ===== src/Governance/Lifecycle/Evolution.antt =====
-- Over any sequence of requests the status of a decision follows the diagram of the docstring of
-- DecisionService, and nothing else of the decision changes.
use open_data_gov.Prelude.{
  ℕ, ◌≡◌, refl, inl, inr, String, true, List, some, arith, ◌==◌, Bool-cases, ==_sound, nat_eq, any,
}
use open_data_gov.Prelude.Exec.{modify, ◌>>=◌}
use open_data_gov.Prelude.Follows.{Follows, IsPreorder, follows_rules}
use open_data_gov.Enums.Governance.{
  DecisionStatus, pending, awaiting_approval, approved, rejected, vetoed, escalated,
}
use open_data_gov.Runtime.{Runtime}
use open_data_gov.Models.{ApprovalRecord, VetoRecord, RaciAssignment}
use open_data_gov.Models.Promotion.{
  GovernanceDecision, GovernanceDecisionRow, assemble_promotion, decision_row,
}
use open_data_gov.Governance.Session.{World, Error, get_row, uuid4, utcnow, add_row}
use open_data_gov.Governance.Repository.Decisions
use open_data_gov.Governance.Repository.Decisions.{row_id, assign_decision}
use open_data_gov.Governance.Repository.Approvals
use open_data_gov.Governance.Repository.Vetoes
use open_data_gov.Governance.Repository.Roles
use open_data_gov.Governance.DecisionService.{is_final, submit_for_approval, finalize}
use open_data_gov.Governance.Respects.{Respects}
use open_data_gov.Governance.Api.{Request, run}
use open_data_gov.Governance.Requests.{rolled_back, run-Follows}
use open_data_gov.Governance.Lifecycle.Rows.{get_row-append, get_row-set_row}
use open_data_gov.Governance.Lifecycle.Frame.{record_event-SameTables}
use open_data_gov.Governance.Lifecycle.Updates.{Moves, moved, submit-Moves, finalize-Moves}

-- PENDING → AWAITING_APPROVAL → APPROVED/REJECTED/VETOED/ESCALATED
infix 40 ◌⟶◌ ◌⟶*◌
pub data ◌⟶◌ : DecisionStatus → DecisionStatus → Type 0 where
  submit : pending ⟶ awaiting_approval
  approve : awaiting_approval ⟶ approved
  reject : awaiting_approval ⟶ rejected
  veto : awaiting_approval ⟶ vetoed
  escalate : awaiting_approval ⟶ escalated

pub data ◌⟶*◌ : DecisionStatus → DecisionStatus → Type 0 where
  here : {s : DecisionStatus} → s ⟶* s
  next : {s t u : DecisionStatus} → s ⟶ t → t ⟶* u → s ⟶* u

⟶*_trans : {s t u : DecisionStatus} → s ⟶* t → t ⟶* u → s ⟶* u
⟶*_trans here q = q
⟶*_trans (next e p) q = next e (⟶*_trans p q)

final_step : (s : DecisionStatus) → is_final s ≡ true → awaiting_approval ⟶ s
unfolding is_final
final_step approved h = approve
final_step rejected h = reject
final_step vetoed h = veto
final_step escalated h = escalate
final_step pending h = absurd (cc)
final_step awaiting_approval h = absurd (cc)

-- The same decision, but for its status and the time of its last update.
abbrev pub SameDecision : GovernanceDecisionRow → GovernanceDecisionRow → Type 0
SameDecision row row' = row' ≡ record row { status = row'.status; updated_at = row'.updated_at }

-- The row that a later state holds for a decision.
abbrev pub Successor : GovernanceDecisionRow → ℕ → World → Type 0
Successor row key w' =
    (row' : GovernanceDecisionRow) × (get_row row_id key w'.decisions ≡ some row')
    × (row.status ⟶* row'.status)
    × SameDecision row row'

pub record Evolves (w w' : World) : Type 0 where
  pub successor :
      (key : ℕ) (row : GovernanceDecisionRow)
      → get_row row_id key w.decisions ≡ some row
      → Successor row key w'

still : (w w' : World) → w'.decisions ≡ w.decisions → Evolves w w'
still w w' e = record { successor = λ key row h. (row, rw e h, here, refl) }

Evolves-IsPreorder : IsPreorder Evolves
Evolves-IsPreorder = record {
  reflexive = λ w. still w w refl;
  transitive = λ a b c f g. record {
    successor = λ key row h.
        let (row', found, path, same) = f.successor key row h in
        let (row'', found', path', same') = g.successor key row' found in
        (row'', found', ⟶*_trans path path', ground (arith, same, same'));
  };
}

create-Evolves : (d : GovernanceDecision) → Follows Evolves (Decisions.create d)
unfolding Decisions.create add_row ◌>>=◌
create-Evolves d = record {
  at = λ w. elim (Bool-cases (any (λ r. row_id r == row_id (decision_row d)) w.decisions)) [
    | inl taken ↦ rw taken (still w w refl)
    | inr fresh ↦ rw fresh (record {
      successor = λ key row h.
          (row, get_row-append row_id key w.decisions row (decision_row d) h, here, refl);
    })
  ];
}

module _ ⦃rt : Runtime⦄ where
  moved-Evolves :
      (d : ℕ) (r : GovernanceDecisionRow) (s : DecisionStatus) (w w' : World)
      → get_row row_id d w.decisions ≡ some r
      → r.status ⟶ s
      → w'.decisions ≡ moved d r s w
      → Evolves w w'
  unfolding assign_decision assemble_promotion
  moved-Evolves d r s w w' found step e = record {
    successor = λ key row h.
        let assign : GovernanceDecisionRow → GovernanceDecisionRow =
          assign_decision (record (assemble_promotion r) { status = s }) (rt.now w.ticks) in
        let read = get_row-set_row row_id assign (λ x. refl) d key w.decisions row h in
        elim (Bool-cases (key == d)) [
          | inl same_key ↦
              let same_row : row ≡ r = ground (arith, ==_sound key d same_key, found, h) in
              (
                assign row,
                rw (e, read, same_key) refl,
                rw same_row (next step here),
                ground (arith, same_row),
              )
          | inr other ↦ (row, rw (e, read, other) refl, here, refl)
        ];
  }

  Moves-Evolves :
      (d : ℕ) (s t : DecisionStatus) (w w' : World) → s ⟶ t → Moves d s t w w' → Evolves w w'
  Moves-Evolves d s t w w' step (inl e) = still w w' e
  Moves-Evolves d s t w w' step (inr (r, found, before, e)) =
      moved-Evolves d r t w w' found (rw before step) e

  finalize-Evolves : (d : ℕ) (s : DecisionStatus) (a : String) → Follows Evolves (finalize d s a)
  finalize-Evolves d s a = record {
    at = λ w. elim (finalize-Moves d s a w) [
      | inl (final, m) ↦
          Moves-Evolves d awaiting_approval s w (finalize d s a w).1 (final_step s final) m
      | inr e ↦ still w (finalize d s a w).1 e
    ];
  }

  submit-Evolves : (d : ℕ) (a : String) → Follows Evolves (submit_for_approval d a)
  submit-Evolves d a = record {
    at = λ w.
        Moves-Evolves d pending awaiting_approval w (submit_for_approval d a w).1 submit
          (submit-Moves d a w);
  }

  uuid4-Evolves : Follows Evolves uuid4
  unfolding uuid4
  uuid4-Evolves = record { at = λ w. still w _ refl }

  utcnow-Evolves : Follows Evolves utcnow
  unfolding utcnow
  utcnow-Evolves = record { at = λ w. still w _ refl }

  approvals-Evolves :
      (f : World → List ApprovalRecord)
      → Follows {E = Error} Evolves (modify (λ w. record w { approvals = f w }))
  unfolding modify
  approvals-Evolves f = record { at = λ w. still w _ refl }

  vetoes-Evolves :
      (f : World → List VetoRecord)
      → Follows {E = Error} Evolves (modify (λ w. record w { vetoes = f w }))
  unfolding modify
  vetoes-Evolves f = record { at = λ w. still w _ refl }

  roles-Evolves :
      (f : World → List RaciAssignment)
      → Follows {E = Error} Evolves (modify (λ w. record w { roles = f w }))
  unfolding modify
  roles-Evolves f = record { at = λ w. still w _ refl }

  ruleset still_rules =
      (follows_rules, Evolves-IsPreorder, approvals-Evolves, vetoes-Evolves, roles-Evolves)

  Evolves-Respects : Respects Evolves
  unfolding Approvals.create Vetoes.create Vetoes.update Roles.create Roles.delete
  Evolves-Respects = record {
    preorder = Evolves-IsPreorder;
    draw_id = uuid4-Evolves;
    draw_time = utcnow-Evolves;
    new_row = create-Evolves;
    submitted = submit-Evolves;
    finalized = finalize-Evolves;
    vote_added = λ v. search still_rules depth 12;
    veto_added = λ v. search still_rules depth 12;
    veto_updated = λ v. search still_rules depth 12;
    role_added = λ a. search still_rules depth 12;
    role_deleted = λ i. roles-Evolves _;
    logged = λ t a b c d details. record {
      at = λ w. still w _ ((record_event-SameTables t a b c d details).at w).decisions;
    };
  }

  -- Whatever the requests, a stored decision is stored afterwards too: its status has moved along
  -- the diagram, and its other fields but the time of the update are what they were.
  pub run-Evolves : (w : World) (requests : List Request) → Evolves w (run w requests)
  run-Evolves = run-Follows Evolves-Respects (λ w w' _. still w (rolled_back w w') refl)

final_stays : {s t : DecisionStatus} → is_final s ≡ true → s ⟶* t → t ≡ s
unfolding is_final
final_stays h here = refl
final_stays h (next submit p) = absurd (cc)
final_stays h (next approve p) = absurd (cc)
final_stays h (next reject p) = absurd (cc)
final_stays h (next veto p) = absurd (cc)
final_stays h (next escalate p) = absurd (cc)

module _ ⦃rt : Runtime⦄ where
  -- A decision that is approved, rejected, vetoed or escalated keeps that status over any requests:
  -- in particular overriding a veto leaves the decision vetoed.
  pub run_final :
      (w : World) (requests : List Request) (key : ℕ) (row : GovernanceDecisionRow)
      → get_row row_id key w.decisions ≡ some row
      → is_final row.status ≡ true
      → (row' : GovernanceDecisionRow) × (get_row row_id key (run w requests).decisions ≡ some row')
        × (row'.status ≡ row.status)
  run_final w requests key row found final =
      let (row', found', path, _) = (run-Evolves w requests).successor key row found in
      (row', found', final_stays final path)

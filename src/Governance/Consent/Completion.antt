-- ===== src/Governance/Consent/Completion.antt =====
-- The last approval that was missing approves the decision.
use open_data_gov.Prelude.{
  ℕ, ◌≡◌, refl, sym, ap, ◌∙◌, subst, inl, inr, String, true, false, some, Bool-cases, is_empty, In,
  ◌⊎◌,
}
use open_data_gov.Prelude.Exec.{ok, pure, ◌>>=◌}
use open_data_gov.Prelude.Returns.{bind-ok, Ensures, Ensures-gets, Ensures-bind, Ensures-require}
use open_data_gov.Enums.Governance.{VoteValue, approved}
use open_data_gov.Runtime.{Runtime}
use open_data_gov.Models.{ApprovalRecord}
use open_data_gov.Models.Promotion.{GovernanceDecision, GovernanceDecisionRow}
use open_data_gov.Governance.Session.{World, get_row}
use open_data_gov.Governance.Repository.Decisions
use open_data_gov.Governance.Repository.Decisions.{row_id}
use open_data_gov.Governance.Repository.Approvals
use open_data_gov.Governance.Repository.Roles
use open_data_gov.Governance.DecisionService.{get_decision, finalize}
use open_data_gov.Governance.ApprovalService.{check_and_finalize, settle, cast_vote, is_subset}
use open_data_gov.Governance.Lifecycle.Finalized.{finalize-ok}
use open_data_gov.Governance.Consent.Frame.{SameVotes}
use open_data_gov.Governance.Consent.Unanimity.{
  Unanimous, HasApproved, required, approving, is_subset-Unanimous,
}
use open_data_gov.Governance.Consent.Voting.{then_tt}
use open_data_gov.Governance.Consent.Cast.{same_domain}

-- The decision is stored, and approved.
abbrev pub IsApproved : ℕ → World → Type 0
IsApproved d w =
    (row : GovernanceDecisionRow) × (get_row row_id d w.decisions ≡ some row)
    × (row.status ≡ approved)

module _ ⦃rt : Runtime⦄ (d : ℕ) where
  -- what a state promises once everyone has voted
  abbrev Completes : String → World → Type 0
  Completes domain_id w = Unanimous d domain_id w → IsApproved d w

  Unanimous-SameVotes :
      (domain_id : String) (w w' : World)
      → SameVotes w w'
      → Unanimous d domain_id w'
      → Unanimous d domain_id w
  Unanimous-SameVotes domain_id w w' same ((a, m, r), all_in) = (
    (a, subst (In a) same.same_roles m, r),
    λ b m' r'.
        subst (HasApproved d b.user_id) same.same_approvals
          (all_in b (subst (In b) (sym same.same_roles) m') r'),
  )

  finalizes :
      (domain_id : String) (w : World)
      → is_empty (required d domain_id w) ≡ false
      → is_subset (required d domain_id w) (approving d domain_id w) ≡ true
      → check_and_finalize d domain_id w ≡ (finalize d approved "system" >>= λ _. pure tt) w
  unfolding check_and_finalize Roles.list_by_domain Approvals.list_by_decision ◌>>=◌
  finalizes domain_id w somebody all_in = rw (somebody, all_in) refl

  idle :
      (domain_id : String) (w : World)
      → (is_empty (required d domain_id w) ≡ true)
        ⊎ (is_empty (required d domain_id w) ≡ false)
          × (is_subset (required d domain_id w) (approving d domain_id w) ≡ false)
      → (check_and_finalize d domain_id w).1 ≡ w
  unfolding check_and_finalize Roles.list_by_domain Approvals.list_by_decision ◌>>=◌
  idle domain_id w (inl nobody) = rw nobody refl
  idle domain_id w (inr (somebody, lacking)) = rw (somebody, lacking) refl

  idle-Completes :
      (domain_id : String) (w : World)
      → (Unanimous d domain_id w → ⊥)
      → (check_and_finalize d domain_id w).1 ≡ w
      → Completes domain_id (check_and_finalize d domain_id w).1
  idle-Completes domain_id w split e = subst (Completes domain_id) (sym e) (λ h. absurd (split h))

  check_and_finalize-Completes :
      (domain_id : String) (w : World)
      → Ensures (λ _. Completes domain_id) (check_and_finalize d domain_id) w
  check_and_finalize-Completes domain_id w u done =
      elim (Bool-cases (is_empty (required d domain_id w))) [
        | inl nobody ↦
            idle-Completes domain_id w (λ h. cc ((is_subset-Unanimous d domain_id w h).0, nobody))
              (idle domain_id w (inl nobody))
        | inr somebody ↦
            elim (Bool-cases (is_subset (required d domain_id w) (approving d domain_id w))) [
              | inl all_in ↦
                  let e = finalizes domain_id w somebody all_in in
                  let (v, k, _) =
                    bind-ok (finalize d approved "system") _ w u (ap (λ r. r.0) (sym e) ∙ done) in
                  let last =
                    ap (λ r. r.1) e ∙ then_tt d domain_id (finalize d approved "system") w in
                  subst (Completes domain_id) (sym last)
                    (λ _. finalize-ok d approved "system" w v (ap (λ r. r.0) k))
              | inr lacking ↦
                  idle-Completes domain_id w
                    (λ h. cc ((is_subset-Unanimous d domain_id w h).1, lacking))
                    (idle domain_id w (inr (somebody, lacking)))
            ]
      ]

  settle-Completes :
      {A : Type 0} (decision : GovernanceDecision) (voter_id : String) (saved : A) (w : World)
      → Ensures
          (λ _. Completes decision.domain_id)
          (settle d decision voter_id VoteValue.approve >>= λ _. pure saved)
          w
  unfolding settle pure
  settle-Completes decision voter_id saved w a done =
      let (u, k, e) = bind-ok (settle d decision voter_id VoteValue.approve) _ w a done in
      subst (λ r. Completes decision.domain_id r.1) (sym e)
        (check_and_finalize-Completes decision.domain_id w u (ap (λ r. r.0) k))

  settle-in :
      {A : Type 0} (decision : GovernanceDecision) (voter_id : String) (saved : A)
      (domain_id : String)
      → decision.domain_id ≡ domain_id
      → (w : World)
      → Ensures
          (λ _. Completes domain_id)
          (settle d decision voter_id VoteValue.approve >>= λ _. pure saved)
          w
  settle-in decision voter_id saved domain_id e w a done =
      subst
        (λ dom.
          Completes dom ((settle d decision voter_id VoteValue.approve >>= λ _. pure saved) w).1)
        e (settle-Completes decision voter_id saved w a done)

  -- When an approving vote returns, at least one user has a required role in the decision's domain,
  -- and everyone with a required role there has then approved it, the decision is approved. It states
  -- nothing of a domain in which nobody has a required role.
  pub cast_vote-IsApproved :
      (voter_id comment : String) (w : World) (row : GovernanceDecisionRow) (saved : ApprovalRecord)
      → get_row row_id d w.decisions ≡ some row
      → (cast_vote d voter_id VoteValue.approve comment w).0 ≡ ok saved
      → Unanimous d row.domain_id (cast_vote d voter_id VoteValue.approve comment w).1
      → IsApproved d (cast_vote d voter_id VoteValue.approve comment w).1
  unfolding cast_vote get_decision Decisions.get_by_id
  cast_vote-IsApproved voter_id comment w row saved stored done =
      let P : ApprovalRecord → World → Type 0 = λ _. Completes row.domain_id in
      Ensures-gets P _ _ w
        (Ensures-require P _ _ _ w λ decision found.
          let domain = same_domain d decision row w found stored in
          Ensures-bind P _ _ w λ _ _. Ensures-bind P _ _ _ λ assigned _.
            Ensures-bind P _ _ _ λ assignment _. Ensures-bind P _ _ _ λ existing _.
              Ensures-bind P _ _ _ λ _ _. Ensures-bind P _ _ _ λ vote_record _.
                Ensures-bind P _ _ _ λ saved _.
                  Ensures-bind P _ _ _
                    λ _ _. settle-in decision voter_id saved row.domain_id domain _)
        saved done

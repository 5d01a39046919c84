-- ===== src/Governance/Consent/Voting.antt =====
-- A vote approves no other decision than its own, and that one only if the vote is unanimous.
use mathlib.Core.List.{append-nil, append_assoc}
use open_data_gov.Prelude.{
  ℕ, ◌≡◌, refl, sym, ◌∙◌, subst, inl, inr, String, List, [], ◌∷◌, ◌++◌, any, ◌==◌, nat_eq,
  Bool-cases, In, is_empty,
}
use open_data_gov.Prelude.Members.{In-append}
use open_data_gov.Prelude.Exec.{Result-cases, pure, ◌>>=◌}
use open_data_gov.Prelude.Follows.{Follows, IsPreorder}
use open_data_gov.Enums.Governance.{AuditEventType, DecisionStatus, approved, awaiting_approval}
use open_data_gov.Runtime.{Runtime, Details}
use open_data_gov.Models.{ApprovalRecord}
use open_data_gov.Governance.Session.{World, Action, uuid4, utcnow, add_row}
use open_data_gov.Governance.Repository.Approvals
use open_data_gov.Governance.Repository.Roles
use open_data_gov.Governance.AuditService.{record_event}
use open_data_gov.Governance.DecisionService.{finalize}
use open_data_gov.Governance.ApprovalService.{check_and_finalize, is_subset}
use open_data_gov.Governance.Lifecycle.Frame.{record_event-SameTables}
use open_data_gov.Governance.Lifecycle.Updates.{finalize-Moves}
use open_data_gov.Governance.Consent.Settled.{Settled, unsettled, Settled-IsPreorder, Moves-Settled}
use open_data_gov.Governance.Consent.Frame.{finalize-SameVotes}
use open_data_gov.Governance.Consent.Unanimity.{
  Unanimous, HasApproved, required, approving, Unanimous-is_subset,
}

-- The roles stay, and votes are only added.
pub record VotesGrow (w w' : World) : Type 0 where
  pub same_roles : w'.roles ≡ w.roles
  pub added : List ApprovalRecord
  pub appended : w'.approvals ≡ w.approvals ++ added

same_votes : (w w' : World) → w'.roles ≡ w.roles → w'.approvals ≡ w.approvals → VotesGrow w w'
same_votes w w' r a = record {
  same_roles = r;
  added = [];
  appended = a ∙ sym (append-nil w.approvals);
}

pub VotesGrow-IsPreorder : IsPreorder VotesGrow
VotesGrow-IsPreorder = record {
  reflexive = λ w. same_votes w w refl refl;
  transitive = λ a b c f g. record {
    same_roles = g.same_roles ∙ f.same_roles;
    added = f.added ++ g.added;
    appended = rw (g.appended, f.appended) (append_assoc a.approvals f.added g.added);
  };
}

module _ (d : ℕ) (domain_id : String) where
  abbrev pub Reason : ℕ → World → Type 0
  Reason key w = (key ≡ d) × Unanimous d domain_id w

  HasApproved-append :
      (user_id : String) (votes added : List ApprovalRecord)
      → HasApproved d user_id votes
      → HasApproved d user_id (votes ++ added)
  HasApproved-append user_id votes added (v, m, a, b, c) = (v, In-append v votes added m, a, b, c)

  Reason-mono : (key : ℕ) (t u : World) → VotesGrow t u → Reason key t → Reason key u
  Reason-mono key t u grow (e, ((a, m, r), all_in)) = (
    e,
    (
      (a, subst (In a) (sym grow.same_roles) m, r),
      λ b m' r'.
          let before = all_in b (subst (In b) grow.same_roles m') r' in
          subst (HasApproved d b.user_id) (sym grow.appended)
            (HasApproved-append b.user_id t.approvals grow.added before),
    ),
  )

  abbrev pub Approves : World → World → Type 0
  Approves = Settled VotesGrow Reason

  pub Approves-IsPreorder : IsPreorder Approves
  Approves-IsPreorder = Settled-IsPreorder VotesGrow Reason VotesGrow-IsPreorder Reason-mono

  pub quiet :
      (w w' : World)
      → w'.decisions ≡ w.decisions
      → w'.roles ≡ w.roles
      → w'.approvals ≡ w.approvals
      → Approves w w'
  quiet w w' e r a = unsettled VotesGrow Reason w w' (same_votes w w' r a) e

  pub create-Approves : (v : ApprovalRecord) → Follows Approves (Approvals.create v)
  unfolding Approvals.create add_row ◌>>=◌
  create-Approves v = record {
    at = λ w. elim (Bool-cases (any (λ r. r.id == v.id) w.approvals)) [
      | inl taken ↦ rw taken (quiet w w refl refl refl)
      | inr fresh ↦ rw fresh (
          unsettled VotesGrow Reason w _
            (record { same_roles = refl; added = v ∷ []; appended = refl }) refl)
    ];
  }

  module _ ⦃rt : Runtime⦄ where
    pub uuid4-Approves : Follows Approves uuid4
    unfolding uuid4
    uuid4-Approves = record { at = λ w. quiet w _ refl refl refl }

    pub utcnow-Approves : Follows Approves utcnow
    unfolding utcnow
    utcnow-Approves = record { at = λ w. quiet w _ refl refl refl }

    pub record_event-Approves :
        (t : AuditEventType) (a b c e : String) (details : Details)
        → Follows Approves (record_event t a b c e details)
    record_event-Approves t a b c e details = record {
      at = λ w.
          let tables = (record_event-SameTables t a b c e details).at w in
          quiet w _ tables.decisions tables.roles tables.approvals;
    }

    votes_grow : (s : DecisionStatus) (a : String) (w : World) → VotesGrow w (finalize d s a w).1
    votes_grow s a w =
        let same = (finalize-SameVotes d s a).at w in
        same_votes w _ same.same_roles same.same_approvals

    -- Finalizing approves the decision only if that is what it was asked for.
    pub finalize-Approves :
        (s : DecisionStatus) (a : String) (w : World)
        → (s ≡ approved → Unanimous d domain_id w)
        → Approves w (finalize d s a w).1
    finalize-Approves s a w reason =
        let grow = votes_grow s a w in
        elim (finalize-Moves d s a w) [
          | inl (_, m) ↦
              Moves-Settled VotesGrow Reason d awaiting_approval s w (finalize d s a w).1 grow
                (λ e. Reason-mono d w (finalize d s a w).1 grow (refl, reason e)) m
          | inr e ↦ unsettled VotesGrow Reason w (finalize d s a w).1 grow e
        ]

    pub then_tt : {A : Type 0} (m : Action A) (w : World) → ((m >>= λ _. pure tt) w).1 ≡ (m w).1
    unfolding ◌>>=◌
    then_tt m w = elim (Result-cases (m w).0) [
      | inl (a, e) ↦ rw (◌>>=◌, e) refl
      | inr (x, e) ↦ rw (◌>>=◌, e) refl
    ]

    pub check_and_finalize-Approves : Follows Approves (check_and_finalize d domain_id)
    unfolding check_and_finalize Roles.list_by_domain Approvals.list_by_decision ◌>>=◌
    check_and_finalize-Approves = record {
      at = λ w.
          let still : Approves w w = quiet w w refl refl refl in
          elim (Bool-cases (is_empty (required d domain_id w))) [
            | inl nobody ↦ rw nobody still
            | inr somebody ↦
                elim (Bool-cases (is_subset (required d domain_id w) (approving d domain_id w))) [
                  | inl all_in ↦
                      rw (somebody, all_in)
                        (subst (Approves w) (sym (then_tt (finalize d approved "system") w)) (
                          finalize-Approves approved "system" w
                            λ _. Unanimous-is_subset d domain_id w somebody all_in))
                  | inr lacking ↦ rw (somebody, lacking) still
                ]
          ];
    }

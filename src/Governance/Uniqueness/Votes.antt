-- ===== src/Governance/Uniqueness/Votes.antt =====
-- The votes of a voter on a decision, as `cast_vote` adds one.
use mathlib.Core.List.{append-nil}
use open_data_gov.Prelude.{
  none, some, ℕ, ◌≤◌, ◌≡◌, refl, sym, subst, String, true, false, List, [], ◌∷◌, ◌++◌, Option,
  length, select, any, arith, Bool-cases, inl, inr, ◌==◌, nat_eq, string_eq, ==_sound,
}
use open_data_gov.Prelude.Exec.{ok, pure, ◌>>=◌}
use open_data_gov.Prelude.Follows.{Follows, follows_rules}
use open_data_gov.Prelude.Returns.{
  Ensures, Ensures-gets, Ensures-bind, Ensures-require, Ensures-raise_if,
}
use open_data_gov.Enums.Governance.{RaciRole, VoteValue, AuditEventType}
use open_data_gov.Runtime.{Runtime, Details}
use open_data_gov.Models.{ApprovalRecord}
use open_data_gov.Models.Promotion.{GovernanceDecision}
use open_data_gov.Governance.Session.{World, uuid4, utcnow, add_row, scalar_one_or_none}
use open_data_gov.Governance.Construct.{new_approval, validate}
use open_data_gov.Governance.Repository.Decisions
use open_data_gov.Governance.Repository.Approvals
use open_data_gov.Governance.Repository.Approvals.{is_vote}
use open_data_gov.Governance.Repository.Roles
use open_data_gov.Governance.AuditService.{record_event}
use open_data_gov.Governance.DecisionService.{get_decision}
use open_data_gov.Governance.ApprovalService.{check_and_finalize, settle, cast_vote}
use open_data_gov.Governance.Uniqueness.Counting.{none-select, select-append, any-absent}
use open_data_gov.Governance.Uniqueness.Untouching.{
  SameApprovals, SameApprovals-IsPreorder, uuid4-SameApprovals, utcnow-SameApprovals,
  record_event-SameApprovals, finalize-SameApprovals,
}

-- No voter has two votes on a decision.
abbrev pub UniqueVotes : List ApprovalRecord → Type 0
UniqueVotes votes =
    (decision_id : ℕ) (voter_id : String) → length (select (is_vote decision_id voter_id) votes) ≤ 1

added-UniqueVotes :
    (vote : ApprovalRecord) (votes : List ApprovalRecord)
    → any (is_vote vote.decision_id vote.voter_id) votes ≡ false
    → UniqueVotes votes
    → UniqueVotes (votes ++ vote ∷ [])
unfolding is_vote
added-UniqueVotes vote votes fresh unique d v = elim (Bool-cases (is_vote d v vote)) [
  | inl same ↦
      let decision : vote.decision_id ≡ d = ==_sound vote.decision_id d (ground (arith, same)) in
      let voter : vote.voter_id ≡ v = ==_sound vote.voter_id v (ground (arith, same)) in
      let fresh' : any (is_vote d v) votes ≡ false =
        subst (λ x. any (is_vote x v) votes ≡ false) decision
          (subst (λ y. any (is_vote vote.decision_id y) votes ≡ false) voter fresh) in
      rw (select-append (is_vote d v) votes vote, none-select (is_vote d v) votes fresh', same)
        (omega arith)
  | inr other ↦
      rw (select-append (is_vote d v) votes vote, other, append-nil (select (is_vote d v) votes))
        (unique d v)
]

create-UniqueVotes :
    (vote : ApprovalRecord) (w : World)
    → any (is_vote vote.decision_id vote.voter_id) w.approvals ≡ false
    → UniqueVotes w.approvals
    → UniqueVotes (Approvals.create vote w).1.approvals
unfolding Approvals.create add_row ◌>>=◌
create-UniqueVotes vote w fresh unique =
    elim (Bool-cases (any (λ r. r.id == vote.id) w.approvals)) [
      | inl old ↦ rw old unique
      | inr new ↦ rw new (added-UniqueVotes vote w.approvals fresh unique)
    ]

pub unread :
    {A : Type 0} (xs : List A) (found : Option A)
    → scalar_one_or_none xs ≡ ok found
    → elim found [ none ↦ false | some _ ↦ true ] ≡ false
    → xs ≡ []
unfolding scalar_one_or_none
unread [] found read absent = refl
unread (x ∷ []) none read absent = absurd (cc)
unread (x ∷ []) (some y) read absent = absurd (cc)
unread (x ∷ y ∷ xs) found read absent = absurd (cc)

module _ ⦃rt : Runtime⦄ where
  -- The vote that `cast_vote` makes, with the tables as they were.
  abbrev pub Made : ℕ → String → RaciRole → VoteValue → World → ApprovalRecord → World → Type 0
  Made d voter_id role vote w made w' =
      (made.decision_id ≡ d)
      × (made.voter_id ≡ voter_id)
      × (made.voter_role ≡ role)
      × (made.vote ≡ vote)
      × (w'.approvals ≡ w.approvals)

  pub new_approval-Made :
      (d : ℕ) (v : String) (r : RaciRole) (vote : VoteValue) (comment : String) (w : World)
      → Ensures (Made d v r vote w) (new_approval d v r vote comment) w
  unfolding new_approval validate uuid4 utcnow pure
  new_approval-Made d v r vote comment w made done =
      let Q = Made d v r vote w in
      Ensures-bind Q _ _ w
        (λ id _.
          Ensures-bind Q _ _ _
            λ voted_at _. Ensures-raise_if Q _ _ _ _ λ _ a e. (cc, cc, cc, cc, refl))
        made done

  ruleset after_rules = (
    follows_rules, SameApprovals-IsPreorder, uuid4-SameApprovals, utcnow-SameApprovals,
    record_event-SameApprovals, finalize-SameApprovals,
  )

  check_and_finalize-SameApprovals :
      (d : ℕ) (a : String) → Follows SameApprovals (check_and_finalize d a)
  unfolding check_and_finalize Roles.list_by_domain Approvals.list_by_decision
  check_and_finalize-SameApprovals d a = search after_rules depth 30

  pub after_vote-SameApprovals :
      (d : ℕ) (decision : GovernanceDecision) (voter : String) (vote : VoteValue)
      (t : AuditEventType) (a b c e : String) (details : Details) (saved : ApprovalRecord)
      → Follows SameApprovals
          (record_event t a b c e details >>= λ _. settle d decision voter vote >>= λ _. pure saved)
  unfolding settle
  after_vote-SameApprovals d decision voter vote t a b c e details saved =
      search (after_rules, check_and_finalize-SameApprovals) depth 30

  pub cast_vote-UniqueVotes :
      (d : ℕ) (voter_id : String) (vote : VoteValue) (comment : String) (w : World)
      → UniqueVotes w.approvals
      → Ensures (λ _ w'. UniqueVotes w'.approvals) (cast_vote d voter_id vote comment) w
  unfolding cast_vote get_decision Decisions.get_by_id Roles.get_assignment Approvals.get_vote
  cast_vote-UniqueVotes d voter_id vote comment w unique =
      let P : ApprovalRecord → World → Type 0 = λ _ w'. UniqueVotes w'.approvals in
      Ensures-gets P _ _ w (
        Ensures-require P _ _ _ w λ decision found. Ensures-raise_if P _ _ _ w λ awaiting.
          Ensures-bind P _ _ w λ assigned _. Ensures-require P _ _ _ w λ assignment _.
            Ensures-bind P _ _ w λ existing read. Ensures-raise_if P _ _ _ w λ absent.
              Ensures-bind P _ _ w λ made built. Ensures-bind P _ _ _ λ saved stored b done.
                let (dec, voter, _, _, same) =
                  new_approval-Made d voter_id assignment.role vote comment w made built in
                let created =
                  create-UniqueVotes made _
                    (rw (dec, voter, same)
                      (any-absent (is_vote d voter_id) w.approvals (unread _ existing read absent)))
                    (subst UniqueVotes (sym same) unique) in
                subst UniqueVotes
                  (sym
                    ((after_vote-SameApprovals d decision voter_id vote _ _ _ _ _ _ saved).at
                      _).approvals)
                  created)

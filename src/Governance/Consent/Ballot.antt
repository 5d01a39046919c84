-- ===== src/Governance/Consent/Ballot.antt =====
-- What a vote that is accepted was, and what it has stored.
use open_data_gov.Prelude.{
  ℕ, ◌≡◌, ap, ◌∙◌, sym, subst, String, false, not, Option, some, arith, List, [], ◌∷◌, ◌++◌, inl,
  inr, Bool-cases, select, any, In, ◌==◌, nat_eq, refl, ==_sound,
}
use open_data_gov.Prelude.Exec.{ok, pure, ◌>>=◌}
use open_data_gov.Prelude.Returns.{
  Ensures, Ensures-gets, Ensures-bind, Ensures-require, Ensures-raise_if,
}
use open_data_gov.Enums.Governance.{
  VoteValue, AuditEventType, decision_status_eq, awaiting_approval,
}
use open_data_gov.Runtime.{Runtime, Details}
use open_data_gov.Models.{ApprovalRecord, RaciAssignment}
use open_data_gov.Models.Promotion.{GovernanceDecision}
use open_data_gov.Governance.Session.{World, Action, add_row}
use open_data_gov.Governance.Repository.Decisions
use open_data_gov.Governance.Repository.Decisions.{row_id}
use open_data_gov.Governance.Repository.Approvals
use open_data_gov.Governance.Repository.Approvals.{is_vote}
use open_data_gov.Governance.Repository.Roles
use open_data_gov.Governance.Construct.{new_approval}
use open_data_gov.Governance.AuditService.{record_event}
use open_data_gov.Governance.DecisionService.{get_decision}
use open_data_gov.Governance.ApprovalService.{settle, cast_vote}
use open_data_gov.Governance.Uniqueness.Votes.{
  Made, unread, new_approval-Made, after_vote-SameApprovals,
}
use open_data_gov.Governance.Vetoing.Outranking.{Assigned, get_assignment-Assigned}

-- A first vote on a decision, by a user with a role in the decision's domain, which is among
-- the votes of a later state.
abbrev pub IsBallot : ℕ → String → VoteValue → World → ApprovalRecord → List ApprovalRecord → Type 0
IsBallot d voter_id vote w saved votes =
    (decision : GovernanceDecision) × (Decisions.find_decision d w ≡ some decision)
    × (decision.status ≡ awaiting_approval)
    × (a : RaciAssignment) × Assigned voter_id decision.domain_id a w
    × (select (is_vote d voter_id) w.approvals ≡ [])
    × (saved.decision_id ≡ d)
    × (saved.voter_id ≡ voter_id)
    × (saved.voter_role ≡ a.role)
    × (saved.vote ≡ vote)
    × In saved votes

In-last : {A : Type 0} (x : A) (xs : List A) → In x (xs ++ x ∷ [])
In-last x [] = inl refl
In-last x (y ∷ xs) = inr (In-last x xs)

create-In :
    (vote : ApprovalRecord) (w : World)
    → Ensures (λ saved w'. (vote ≡ saved) × In saved w'.approvals) (Approvals.create vote) w
unfolding Approvals.create add_row ◌>>=◌
create-In vote w saved done = elim (Bool-cases (any (λ r. r.id == vote.id) w.approvals)) [
  | inl old ↦ absurd (ground (arith, old, done))
  | inr new ↦
      let same : vote ≡ saved = ground (arith, new, done) in
      (same, rw new (subst (λ v. In v (w.approvals ++ vote ∷ [])) same (In-last vote w.approvals)))
]

-- the value of an action that ends with `pure`
returned :
    {A B C : Type 0} (m : Action A) (n : Action B) (c : C) (w : World)
    → Ensures (λ b _. c ≡ b) (m >>= λ _. n >>= λ _. pure c) w
unfolding pure
returned m n c w =
    Ensures-bind (λ b _. c ≡ b) m _ w
      λ _ _. Ensures-bind (λ b _. c ≡ b) n _ _ λ _ _ b done. ground (arith, done)

awaited :
    (decision : GovernanceDecision)
    → not (decision.status == awaiting_approval) ≡ false
    → decision.status ≡ awaiting_approval
awaited decision h = ==_sound decision.status awaiting_approval (ground (arith, h))

-- What `cast_vote` does once the vote is stored keeps it stored, and returns it.
module _ ⦃rt : Runtime⦄ where
  after_vote-In :
      (d : ℕ) (decision : GovernanceDecision) (voter_id : String) (vote : VoteValue)
      (t : AuditEventType) (x y z m : String) (details : Details) (kept : ApprovalRecord)
      (w : World)
      → In kept w.approvals
      → Ensures
          (λ b w'. (kept ≡ b) × In b w'.approvals)
          (record_event t x y z m details >>= λ _.
            settle d decision voter_id vote >>= λ _. pure kept)
          w
  after_vote-In d decision voter_id vote t x y z m details kept w member b done =
      let last =
        returned (record_event t x y z m details) (settle d decision voter_id vote) kept w b done in
      let same =
        ((after_vote-SameApprovals d decision voter_id vote t x y z m details kept).at
          w).approvals in
      (last, rw (same, sym last) member)

module _ ⦃rt : Runtime⦄ (d : ℕ) (voter_id : String) (vote : VoteValue) (w : World) where
  IsBallot-facts :
      (decision : GovernanceDecision) (o : Option RaciAssignment) (a : RaciAssignment)
      (made saved : ApprovalRecord) (w2 : World) (votes : List ApprovalRecord)
      → Decisions.find_decision d w ≡ some decision
      → decision.status ≡ awaiting_approval
      → (Roles.get_assignment voter_id decision.domain_id w).0 ≡ ok o
      → o ≡ some a
      → select (is_vote d voter_id) w.approvals ≡ []
      → Made d voter_id a.role vote w made w2
      → made ≡ saved
      → In saved votes
      → IsBallot d voter_id vote w saved votes
  IsBallot-facts decision o a made saved w2 votes found awaits looked_up is_a first
        (made_for, made_by, made_as, made_vote, _) same stored =
      (
        decision,
        found,
        awaits,
        a,
        get_assignment-Assigned voter_id decision.domain_id a w (looked_up ∙ ap ok is_a),
        first,
        cc (same, made_for),
        cc (same, made_by),
        cc (same, made_as),
        cc (same, made_vote),
        stored,
      )

  -- When a vote is accepted, the decision awaited approval, the voter had a role in the decision's
  -- domain and no vote on the decision yet, and the vote, with that role, is stored.
  pub cast_vote-IsBallot :
      (comment : String) (saved : ApprovalRecord)
      → (cast_vote d voter_id vote comment w).0 ≡ ok saved
      → IsBallot d voter_id vote w saved (cast_vote d voter_id vote comment w).1.approvals
  unfolding cast_vote get_decision Decisions.get_by_id Approvals.get_vote Roles.get_assignment
  cast_vote-IsBallot comment saved done =
      let P : ApprovalRecord → World → Type 0 =
        λ saved w'. IsBallot d voter_id vote w saved w'.approvals in
      Ensures-gets P _ _ w
        (Ensures-require P _ _ _ w λ decision found. Ensures-raise_if P _ _ _ w λ awaits.
          Ensures-bind P (Roles.get_assignment voter_id decision.domain_id) _ w λ o looked_up.
            Ensures-require P _ _ _ w λ a is_a.
              Ensures-bind P (Approvals.get_vote d voter_id) _ w λ existing read.
                Ensures-raise_if P _ _ _ w λ absent. Ensures-bind P _ _ w λ made built.
                  let w2 = (new_approval d voter_id a.role vote comment w).1 in
                  Ensures-bind P (Approvals.create made) _ w2 λ kept stored b end.
                    let (same, member) = create-In made w2 kept stored in
                    let (last, member') =
                      after_vote-In d decision voter_id vote _ _ _ _ _ _ kept
                        (Approvals.create made w2).1 member b end in
                    IsBallot-facts decision o a made b w2 _ found (awaited decision awaits)
                      looked_up is_a (unread _ existing read absent)
                      (new_approval-Made d voter_id a.role vote comment w made built) (same ∙ last)
                      member')
        saved done

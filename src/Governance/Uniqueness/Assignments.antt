-- ===== src/Governance/Uniqueness/Assignments.antt =====
-- The roles of a user in a domain, over a sequence of requests.
use mathlib.Core.List.{append-nil}
use native.Mathlib.Nat.{le_trans}
use open_data_gov.Prelude.{
  none, some, ℕ, ◌≤◌, ◌≡◌, refl, sym, subst, String, false, List, [], ◌∷◌, ◌++◌, Option, length,
  select, any, arith, Bool-cases, inl, inr, ◌==◌, nat_eq, string_eq, ==_sound,
}
use open_data_gov.Prelude.Exec.{ok, modify, ◌>>=◌}
use open_data_gov.Prelude.Follows.{Follows, IsPreorder, follows_rules}
use open_data_gov.Enums.Governance.{AuditEventType, DecisionStatus}
use open_data_gov.Runtime.{Runtime, Details}
use open_data_gov.Models.{ApprovalRecord, VetoRecord, RaciAssignment}
use open_data_gov.Models.Promotion.{GovernanceDecisionRow}
use open_data_gov.Governance.Session.{
  World, Error, empty_world, uuid4, utcnow, add_row, scalar_one_or_none,
}
use open_data_gov.Governance.Repository.Decisions
use open_data_gov.Governance.Repository.Approvals
use open_data_gov.Governance.Repository.Vetoes
use open_data_gov.Governance.Repository.Roles
use open_data_gov.Governance.Repository.Roles.{is_assignment, add_assignment, assignment_id}
use open_data_gov.Governance.AuditService.{record_event}
use open_data_gov.Governance.DecisionService.{submit_for_approval, finalize}
use open_data_gov.Governance.Respects.{Respects}
use open_data_gov.Governance.Api.{Request, run}
use open_data_gov.Governance.Requests.{rolled_back, run-Follows}
use open_data_gov.Governance.Lifecycle.Frame.{record_event-SameTables}
use open_data_gov.Governance.Uniqueness.Counting.{none-select, select-append, length-select-select}

-- No user has two rows in a domain.
abbrev pub UniqueRoles : List RaciAssignment → Type 0
UniqueRoles roles =
    (user_id domain_id : String) → length (select (is_assignment user_id domain_id) roles) ≤ 1

pub record KeepsUnique (w w' : World) : Type 0 where
  pub kept : UniqueRoles w.roles → UniqueRoles w'.roles

same_roles : (w w' : World) → w'.roles ≡ w.roles → KeepsUnique w w'
same_roles w w' e = record { kept = subst UniqueRoles (sym e) }

KeepsUnique-IsPreorder : IsPreorder KeepsUnique
KeepsUnique-IsPreorder = record {
  reflexive = λ w. record { kept = λ h. h };
  transitive = λ a b c f g. record { kept = λ h. g.kept (f.kept h) };
}

added-UniqueRoles :
    (row : RaciAssignment) (roles : List RaciAssignment)
    → any (is_assignment row.user_id row.domain_id) roles ≡ false
    → UniqueRoles roles
    → UniqueRoles (roles ++ row ∷ [])
unfolding is_assignment
added-UniqueRoles row roles fresh unique u d = elim (Bool-cases (is_assignment u d row)) [
  | inl same ↦
      let user : row.user_id ≡ u = ==_sound row.user_id u (ground (arith, same)) in
      let domain : row.domain_id ≡ d = ==_sound row.domain_id d (ground (arith, same)) in
      let fresh' : any (is_assignment u d) roles ≡ false =
        subst (λ x. any (is_assignment x d) roles ≡ false) user
          (subst (λ y. any (is_assignment row.user_id y) roles ≡ false) domain fresh) in
      rw
        (
          select-append (is_assignment u d) roles row,
          none-select (is_assignment u d) roles fresh',
          same,
        )
        (omega arith)
  | inr other ↦
      rw
        (
          select-append (is_assignment u d) roles row,
          other,
          append-nil (select (is_assignment u d) roles),
        )
        (unique u d)
]

create-KeepsUnique : (a : RaciAssignment) → Follows KeepsUnique (Roles.create a)
unfolding Roles.create add_assignment add_row ◌>>=◌
create-KeepsUnique a = record {
  at = λ w. elim (Bool-cases (any (is_assignment a.user_id a.domain_id) w.roles)) [
    | inl taken ↦ rw taken (same_roles w w refl)
    | inr fresh ↦ elim (Bool-cases (any (λ r. assignment_id r == assignment_id a) w.roles)) [
      | inl old ↦ rw (fresh, old) (same_roles w w refl)
      | inr new ↦ rw (fresh, new) (record { kept = added-UniqueRoles a w.roles fresh })
    ]
  ];
}

delete-KeepsUnique : (i : ℕ) → Follows KeepsUnique (Roles.delete i)
unfolding Roles.delete modify
delete-KeepsUnique i = record {
  at = λ w. record {
    kept = λ unique u d. le_trans (length-select-select (is_assignment u d) _ w.roles) (unique u d);
  };
}

decisions-KeepsUnique :
    (f : World → List GovernanceDecisionRow)
    → Follows {E = Error} KeepsUnique (modify (λ w. record w { decisions = f w }))
unfolding modify
decisions-KeepsUnique f = record { at = λ w. same_roles w _ refl }

approvals-KeepsUnique :
    (f : World → List ApprovalRecord)
    → Follows {E = Error} KeepsUnique (modify (λ w. record w { approvals = f w }))
unfolding modify
approvals-KeepsUnique f = record { at = λ w. same_roles w _ refl }

vetoes-KeepsUnique :
    (f : World → List VetoRecord)
    → Follows {E = Error} KeepsUnique (modify (λ w. record w { vetoes = f w }))
unfolding modify
vetoes-KeepsUnique f = record { at = λ w. same_roles w _ refl }

pub scalar-ok :
    {A : Type 0} (xs : List A) → length xs ≤ 1 → (o : Option A) × (scalar_one_or_none xs ≡ ok o)
unfolding scalar_one_or_none
scalar-ok [] h = (none, refl)
scalar-ok (x ∷ []) h = (some x, refl)
scalar-ok (x ∷ y ∷ xs) h = absurd (omega arith)

module _ ⦃rt : Runtime⦄ where
  uuid4-KeepsUnique : Follows KeepsUnique uuid4
  unfolding uuid4
  uuid4-KeepsUnique = record { at = λ w. same_roles w _ refl }

  utcnow-KeepsUnique : Follows KeepsUnique utcnow
  unfolding utcnow
  utcnow-KeepsUnique = record { at = λ w. same_roles w _ refl }

  record_event-KeepsUnique :
      (t : AuditEventType) (a b c d : String) (details : Details)
      → Follows KeepsUnique (record_event t a b c d details)
  record_event-KeepsUnique t a b c d details = record {
    at = λ w. same_roles w _ ((record_event-SameTables t a b c d details).at w).roles;
  }

  ruleset unique_rules = (
    follows_rules, KeepsUnique-IsPreorder, uuid4-KeepsUnique, utcnow-KeepsUnique,
    record_event-KeepsUnique, decisions-KeepsUnique, approvals-KeepsUnique, vetoes-KeepsUnique,
  )

  submit-KeepsUnique : (d : ℕ) (a : String) → Follows KeepsUnique (submit_for_approval d a)
  unfolding submit_for_approval Decisions.get_by_id Decisions.update
  submit-KeepsUnique d a = search unique_rules depth 30

  finalize-KeepsUnique :
      (d : ℕ) (s : DecisionStatus) (a : String) → Follows KeepsUnique (finalize d s a)
  unfolding finalize Decisions.get_by_id Decisions.update
  finalize-KeepsUnique d s a = search unique_rules depth 30

  KeepsUnique-Respects : Respects KeepsUnique
  unfolding Decisions.create Approvals.create Vetoes.create Vetoes.update
  KeepsUnique-Respects = record {
    preorder = KeepsUnique-IsPreorder;
    draw_id = uuid4-KeepsUnique;
    draw_time = utcnow-KeepsUnique;
    new_row = λ d. search unique_rules depth 12;
    submitted = submit-KeepsUnique;
    finalized = finalize-KeepsUnique;
    vote_added = λ v. search unique_rules depth 12;
    veto_added = λ v. search unique_rules depth 12;
    veto_updated = λ v. search unique_rules depth 12;
    role_added = create-KeepsUnique;
    role_deleted = delete-KeepsUnique;
    logged = record_event-KeepsUnique;
  }

  -- After any sequence of requests to an engine with empty tables a user has at most one role in
  -- a domain, so that looking it up returns: it never meets two rows.
  pub run-get_assignment :
      (requests : List Request) (user_id domain_id : String)
      → (o : Option RaciAssignment) × ((Roles.get_assignment user_id domain_id
            (run empty_world requests)).0
          ≡ ok o)
  unfolding Roles.get_assignment select
  run-get_assignment requests user_id domain_id =
      let unique : UniqueRoles (run empty_world requests).roles =
        (run-Follows KeepsUnique-Respects (λ w w' _. same_roles w (rolled_back w w') refl)
            empty_world requests).kept
          (λ u d. omega arith) in
      scalar-ok _ (unique user_id domain_id)

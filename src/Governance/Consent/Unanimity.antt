-- ===== src/Governance/Consent/Unanimity.antt =====
-- Everyone with a required role in the domain has voted to approve.
use open_data_gov.Prelude.{
  ℕ, subst, String, ◌≡◌, true, false, List, In, select, is_empty, ◌==◌, nat_eq, string_eq, ==_sound,
  ==_refl,
}
use open_data_gov.Prelude.Members.{
  In-select, select-In, all-In, any-In, is_empty-In, map-In, In-map, In-order_by, order_by-In,
  In-any, In-all, In-is_empty,
}
use open_data_gov.Prelude.Sort.{order_by}
use open_data_gov.Enums.Governance.{VoteValue, vote_value_eq}
use open_data_gov.Models.{ApprovalRecord, RaciAssignment}
use open_data_gov.Governance.Session.{World}
use open_data_gov.Governance.ApprovalService.{
  is_required_role, required_voters, approved_voters, is_subset,
}

-- an assignment that makes its user a required voter of the domain
abbrev pub IsRequired : String → RaciAssignment → Type 0
IsRequired domain_id a = (a.domain_id ≡ domain_id) × (is_required_role a.role ≡ true)

abbrev pub HasApproved : ℕ → String → List ApprovalRecord → Type 0
HasApproved decision_id user_id approvals =
    (v : ApprovalRecord) × In v approvals
    × (v.decision_id ≡ decision_id)
    × (v.voter_id ≡ user_id)
    × (v.vote ≡ VoteValue.approve)

-- The domain has a required voter, and every required voter has approved the decision.
abbrev pub Unanimous : ℕ → String → World → Type 0
Unanimous decision_id domain_id w =
    ((a : RaciAssignment) × In a w.roles × IsRequired domain_id a)
    × ((a : RaciAssignment)
        → In a w.roles
        → IsRequired domain_id a
        → HasApproved decision_id a.user_id w.approvals)

module _ (decision_id : ℕ) (domain_id : String) (w : World) where
  -- what `check_and_finalize` reads
  abbrev pub required : List String
  required = required_voters (select (λ r. r.domain_id == domain_id) w.roles)

  abbrev pub approving : List String
  approving =
      approved_voters
        (order_by (λ r. r.voted_at) (select (λ r. r.decision_id == decision_id) w.approvals))

  required-In :
      (user_id : String)
      → In user_id required
      → (a : RaciAssignment) × In a w.roles × IsRequired domain_id a × (a.user_id ≡ user_id)
  unfolding required_voters
  required-In user_id m =
      let (a, m1, e) = In-map (λ (a : RaciAssignment). a.user_id) user_id _ m in
      let (m2, r) = In-select (λ (a : RaciAssignment). is_required_role a.role) a _ m1 in
      let (m3, d) = In-select (λ (a : RaciAssignment). a.domain_id == domain_id) a w.roles m2 in
      (a, m3, (==_sound a.domain_id domain_id d, r), e)

  In-required : (a : RaciAssignment) → In a w.roles → IsRequired domain_id a → In a.user_id required
  unfolding required_voters
  In-required a m (d, r) =
      map-In (λ (a : RaciAssignment). a.user_id) a _
        (select-In (λ (a : RaciAssignment). is_required_role a.role) a _
          (select-In (λ (a : RaciAssignment). a.domain_id == domain_id) a w.roles m
            (rw d (==_refl domain_id)))
          r)

  approving-In :
      (user_id : String) → In user_id approving → HasApproved decision_id user_id w.approvals
  unfolding approved_voters
  approving-In user_id m =
      let (v, m1, e) = In-map (λ (v : ApprovalRecord). v.voter_id) user_id _ m in
      let (m2, yea) = In-select (λ (v : ApprovalRecord). v.vote == VoteValue.approve) v _ m1 in
      let m3 = In-order_by (λ (v : ApprovalRecord). v.voted_at) v _ m2 in
      let (m4, d) =
        In-select (λ (v : ApprovalRecord). v.decision_id == decision_id) v w.approvals m3 in
      (v, m4, ==_sound v.decision_id decision_id d, e, ==_sound v.vote VoteValue.approve yea)

  -- The test of `check_and_finalize` holds only where the vote is unanimous.
  pub Unanimous-is_subset :
      is_empty required ≡ false
      → is_subset required approving ≡ true
      → Unanimous decision_id domain_id w
  unfolding is_subset
  Unanimous-is_subset some_required covered =
      let (user_id, m) = is_empty-In required some_required in
      let (a, in_roles, is_required, _) = required-In user_id m in
      (
        (a, in_roles, is_required),
        λ b in_roles is_required.
            let one = all-In _ b.user_id required covered (In-required b in_roles is_required) in
            let (voter, m, same) = any-In _ approving one in
            approving-In b.user_id (subst (λ u. In u approving) (==_sound voter b.user_id same) m),
      )

  In-approving :
      (user_id : String) → HasApproved decision_id user_id w.approvals → In user_id approving
  unfolding approved_voters
  In-approving user_id (v, m, d, e, yea) =
      subst (λ u. In u approving) e
        (map-In (λ (v : ApprovalRecord). v.voter_id) v _
          (select-In (λ (v : ApprovalRecord). v.vote == VoteValue.approve) v _
            (order_by-In (λ (v : ApprovalRecord). v.voted_at) v _
              (select-In (λ (v : ApprovalRecord). v.decision_id == decision_id) v w.approvals m
                (rw d (==_refl decision_id))))
            (rw yea (==_refl VoteValue.approve))))

  -- Where the vote is unanimous, both tests of `check_and_finalize` pass.
  pub is_subset-Unanimous :
      Unanimous decision_id domain_id w
      → (is_empty required ≡ false) × (is_subset required approving ≡ true)
  unfolding is_subset
  is_subset-Unanimous ((a, m, r), all_in) = (
    In-is_empty a.user_id required (In-required a m r),
    In-all _ required (λ user_id asked.
        let (b, in_roles, is_required, same) = required-In user_id asked in
        let voted = In-approving b.user_id (all_in b in_roles is_required) in
        In-any _ user_id approving (subst (λ u. In u approving) same voted) (==_refl user_id)),
  )

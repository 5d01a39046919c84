-- ===== src/Governance/Vetoing/Outranking.antt =====
-- Who can override a veto.
use open_data_gov.Prelude.{
  ℕ, ◌<◌, ◌≡◌, ◌≢◌, refl, sym, ap, ◌∙◌, inl, String, false, not, List, [], ◌∷◌, In, Option, some,
  select, arith, ◌==◌, nat_eq, string_eq, ==_sound, leb, subst,
}
use open_data_gov.Prelude.Members.{In-select}
use open_data_gov.Prelude.Exec.{ok, ◌>>=◌}
use open_data_gov.Prelude.Returns.{gets-ok, bind-ok, require-ok, raise_if-ok}
use open_data_gov.Enums.Governance.{RaciRole, VetoStatus, veto_status_eq}
use open_data_gov.Runtime.{Runtime}
use open_data_gov.Models.{VetoRecord, RaciAssignment}
use open_data_gov.Models.Promotion.{GovernanceDecision}
use open_data_gov.Governance.Session.{World, Action, get_row, scalar_one_or_none}
use open_data_gov.Governance.Repository.Vetoes
use open_data_gov.Governance.Repository.Vetoes.{veto_id}
use open_data_gov.Governance.Repository.Roles
use open_data_gov.Governance.Repository.Roles.{is_assignment}
use open_data_gov.Governance.Repository.Decisions
use open_data_gov.Governance.DecisionService.{get_decision}
use open_data_gov.Governance.VetoService.{role_level, override_veto}

-- the stored assignment of a user in a domain
abbrev pub Assigned : String → String → RaciAssignment → World → Type 0
Assigned user_id domain_id a w = In a w.roles × (a.user_id ≡ user_id) × (a.domain_id ≡ domain_id)

scalar-some : {A : Type 0} (xs : List A) (x : A) → scalar_one_or_none xs ≡ ok (some x) → xs ≡ x ∷ []
unfolding scalar_one_or_none
scalar-some [] x h = cc
scalar-some (y ∷ []) x h = ground (arith, h)
scalar-some (y ∷ z ∷ xs) x h = cc

pub get_assignment-Assigned :
    (user_id domain_id : String) (a : RaciAssignment) (w : World)
    → (Roles.get_assignment user_id domain_id w).0 ≡ ok (some a)
    → Assigned user_id domain_id a w
unfolding Roles.get_assignment is_assignment
get_assignment-Assigned user_id domain_id a w h =
    let one = scalar-some _ a h in
    let here : In a (select (is_assignment user_id domain_id) w.roles) =
      subst (In a) (sym one) (inl refl) in
    let (m, t) = In-select (is_assignment user_id domain_id) a w.roles here in
    (
      m,
      ==_sound a.user_id user_id (ground (arith, t)),
      ==_sound a.domain_id domain_id (ground (arith, t)),
    )

-- The look-up leaves the state.
pub get_assignment-ok :
    {B : Type 0} (user_id domain_id : String) (f : Option RaciAssignment → Action B) (w : World)
    (b : B)
    → ((Roles.get_assignment user_id domain_id >>= f) w).0 ≡ ok b
    → (o : Option RaciAssignment) × ((Roles.get_assignment user_id domain_id w).0 ≡ ok o)
      × ((f o w).0 ≡ ok b)
      × ((Roles.get_assignment user_id domain_id >>= f) w ≡ f o w)
unfolding Roles.get_assignment
get_assignment-ok user_id domain_id f w b h =
    let (o, e, k) = bind-ok _ f w b h in (o, ap (λ p. p.0) e, ap (λ p. p.0) (sym k) ∙ h, k)

active_status :
    (veto : VetoRecord)
    → not (veto.status == VetoStatus.active) ≡ false
    → veto.status ≡ VetoStatus.active
active_status veto h = ==_sound veto.status VetoStatus.active (ground (arith, h))

leb-false : (m n : ℕ) → leb m n ≡ false → n < m
leb-false m n h = ground (arith, h)

module _ ⦃rt : Runtime⦄ where
  -- A veto is overridden only while it is active, and only by a user whose role in the decision's
  -- domain is above the role that the veto was exercised with.
  pub override_veto-outranks :
      (id : ℕ) (overridden_by : String) (w : World) (updated : VetoRecord)
      → (override_veto id overridden_by w).0 ≡ ok updated
      → (veto : VetoRecord) × (get_row veto_id id w.vetoes ≡ some veto)
        × (veto.status ≡ VetoStatus.active)
        × (decision : GovernanceDecision) × (Decisions.find_decision veto.decision_id w
            ≡ some decision)
        × (a : RaciAssignment) × Assigned overridden_by decision.domain_id a w
        × (role_level veto.vetoed_by_role < role_level a.role)
  unfolding override_veto Vetoes.get_by_id get_decision Decisions.get_by_id
  override_veto-outranks id overridden_by w updated h =
      let (h0, _) = gets-ok _ _ w updated h in
      let (veto, found, h1, _) = require-ok _ _ _ w updated h0 in
      let (active, h2, _) = raise_if-ok _ _ _ w updated h1 in
      let (h2', _) = gets-ok _ _ w updated h2 in
      let (decision, decided, h3, _) = require-ok _ _ _ w updated h2' in
      let (assigned, looked_up, h4, _) = get_assignment-ok _ _ _ w updated h3 in
      let (a, is_a, h5, _) = require-ok _ _ _ w updated h4 in
      let (outranks, _, _) = raise_if-ok _ _ _ w updated h5 in
      (
        veto,
        found,
        active_status veto active,
        decision,
        decided,
        a,
        get_assignment-Assigned overridden_by decision.domain_id a w (looked_up ∙ ap ok is_a),
        leb-false _ _ outranks,
      )

  -- A veto that an accountable user exercised is never overridden.
  pub override_veto-accountable :
      (id : ℕ) (overridden_by : String) (w : World) (veto updated : VetoRecord)
      → get_row veto_id id w.vetoes ≡ some veto
      → veto.vetoed_by_role ≡ RaciRole.accountable
      → (override_veto id overridden_by w).0 ≢ ok updated
  unfolding role_level
  override_veto-accountable id overridden_by w veto updated found accountable h =
      let (veto', found', _, _, _, a, _, above) =
        override_veto-outranks id overridden_by w updated h in
      ground (arith, found, found', accountable, above)

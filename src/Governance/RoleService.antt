-- ===== src/Governance/RoleService.antt =====
-- services/governance-engine/src/governance_engine/domain/role_service.py
use open_data_gov.Prelude.{ℕ, String, true, false, List, [], ◌∷◌, none, some, f_string}
use open_data_gov.Prelude.Exec.{pure, require, raise_if, ◌>>=◌, ◌>>◌}
use open_data_gov.Enums.Governance.{RaciRole, raci_role_value, AuditEventType}
use open_data_gov.Runtime.{Runtime, Scalar}
use open_data_gov.Models.{RaciAssignment}
use open_data_gov.Governance.Session.{Error, Action}
use open_data_gov.Governance.Construct.{new_assignment}
use open_data_gov.Governance.Repository.Roles
use open_data_gov.Governance.AuditService.{record_event}

unfoldable pub get_assignments_for_domain : String → Action (List RaciAssignment)
get_assignments_for_domain domain_id = Roles.list_by_domain domain_id

unfoldable pub get_assignments_for_user : String → Action (List RaciAssignment)
get_assignments_for_user user_id = Roles.list_by_user user_id

module _ ⦃rt : Runtime⦄ where
  unfoldable pub assign_role :
      (user_id domain_id : String) → RaciRole → String → Action RaciAssignment
  assign_role user_id domain_id role assigned_by = do
    existing ← Roles.get_assignment user_id domain_id
    raise_if (elim existing [ none ↦ false | some _ ↦ true ]) Error.role_already_assigned
    assignment ← new_assignment user_id domain_id role assigned_by
    saved ← Roles.create assignment
    record_event AuditEventType.role_assigned "raci_assignment" (rt.uuid_text saved.id) assigned_by
        (f_string (
          "Role "
          ∷ raci_role_value role
          ∷ " assigned to "
          ∷ user_id
          ∷ " in domain "
          ∷ domain_id
          ∷ []))
        (("user_id", Scalar.str user_id)
          ∷ ("domain_id", Scalar.str domain_id)
          ∷ ("role", Scalar.str (raci_role_value role))
          ∷ [])
    pure saved

  unfoldable pub revoke_role : ℕ → String → Action (Unit {0})
  revoke_role assignment_id revoked_by = do
    found ← Roles.get_by_id assignment_id
    assignment ← require Error.assignment_not_found found
    Roles.delete assignment_id
    record_event AuditEventType.role_revoked "raci_assignment" (rt.uuid_text assignment_id)
        revoked_by
        (f_string (
          "Role "
          ∷ raci_role_value assignment.role
          ∷ " revoked from "
          ∷ assignment.user_id
          ∷ " in "
          ∷ assignment.domain_id
          ∷ []))
        []
    pure tt

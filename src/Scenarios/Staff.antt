-- ===== src/Scenarios/Staff.antt =====
-- Roles in the domain of the scenarios.
use open_data_gov.Prelude.{ℕ, String}
use open_data_gov.Enums.Governance.{RaciRole}
use open_data_gov.Models.{RaciAssignment}

abbrev pub assignment : ℕ → String → RaciRole → RaciAssignment
assignment id user_id role = record {
  id = id;
  user_id = user_id;
  domain_id = "sales";
  role = role;
  assigned_at = 0;
  assigned_by = "root";
}

-- ===== src/Governance/Repository/Roles.antt =====
-- PgRACIRepository
use open_data_gov.Prelude.{
  ℕ, String, Bool, ◌&&◌, not, List, Option, select, any, ◌==◌, nat_eq, string_eq, if◌then◌else◌,
}
use open_data_gov.Prelude.Exec.{Result, err, pure, lift, gets, modify, ◌>>=◌, ◌>>◌}
use open_data_gov.Models.{RaciAssignment}
use open_data_gov.Governance.Session.{Error, Action, add_row, get_row, scalar_one_or_none}

abbrev pub assignment_id : RaciAssignment → ℕ
assignment_id row = row.id

unfoldable pub is_assignment : String → String → RaciAssignment → Bool
is_assignment user_id domain_id row = row.user_id == user_id && row.domain_id == domain_id

-- The unique index `ix_raci_user_domain` of db/tables.py refuses a second row of a user in a domain.
unfoldable pub add_assignment :
    RaciAssignment → List RaciAssignment → Result Error (List RaciAssignment)
add_assignment row rows =
    if any (is_assignment row.user_id row.domain_id) rows
    then err Error.integrity_error
    else add_row assignment_id row rows

unfoldable pub create : RaciAssignment → Action RaciAssignment
create assignment = do
  w ← gets (λ w. w)
  rows ← lift (add_assignment assignment w.roles)
  modify (λ w. record w { roles = rows })
  pure assignment

unfoldable pub get_by_id : ℕ → Action (Option RaciAssignment)
get_by_id key = gets (λ w. get_row assignment_id key w.roles)

unfoldable pub get_assignment : String → String → Action (Option RaciAssignment)
get_assignment user_id domain_id w =
    (scalar_one_or_none (select (is_assignment user_id domain_id) w.roles), w)

-- A key that the table does not hold deletes nothing.
unfoldable pub delete : ℕ → Action (Unit {0})
delete key = modify (λ w. record w { roles = select (λ r. not (r.id == key)) w.roles })

unfoldable pub list_by_domain : String → Action (List RaciAssignment)
list_by_domain domain_id = gets (λ w. select (λ r. r.domain_id == domain_id) w.roles)

unfoldable pub list_by_user : String → Action (List RaciAssignment)
list_by_user user_id = gets (λ w. select (λ r. r.user_id == user_id) w.roles)

-- ===== src/Scenarios/Access.antt =====
-- Checks of roles at concrete users.
use open_data_gov.Prelude.{◌≡◌, ◌↔◌, true, false, [], ◌∷◌, In, some, none}
use open_data_gov.Prelude.Exec.{ok}
use open_data_gov.Enums.Governance.{RaciRole}
use open_data_gov.Auth.Users.{UserContext}
use open_data_gov.Auth.Clients.{AccessInput, OpaReply, AuthSettings, Singletons}
use open_data_gov.Auth.Dependencies.{AuthRequest, check_role}
use open_data_gov.Auth.Access.{opa_of, IsAllowed, check_role_iff}

abbrev settings : AuthSettings
settings = record { keycloak_enabled = true; opa_enabled = true }

abbrev fresh : Singletons
fresh = record { keycloak = none; opa = none }

abbrev post : AccessInput → OpaReply
post input = OpaReply.answered (some true)

abbrev login : AuthRequest
login = record { authorization = some "Bearer abc"; path = "/api/v1/decisions" }

abbrev ann : UserContext
ann = record {
  user_id = "ann";
  username = "ann";
  email = "";
  roles = "responsible" ∷ [];
  is_authenticated = true;
}

check_role_iff_example :
    ((check_role settings post RaciRole.accountable login ann fresh).0 ≡ ok ann) ↔ (
      (ann.is_authenticated ≡ true)
      × ((opa_of settings fresh).enabled ≡ true → IsAllowed post ann "accountable" login.path)
      × ((opa_of settings fresh).enabled ≡ false → In "accountable" ann.roles))
check_role_iff_example = check_role_iff settings post RaciRole.accountable login ann fresh

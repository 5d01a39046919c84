-- ===== src/Auth/Dependencies.antt =====
-- libs/python/odg-core/src/odg_core/auth/dependencies.py
use open_data_gov.Prelude.{
  String, Bool, true, not, Option, none, some, any, ◌==◌, string_eq, text_length, if◌then◌else◌,
}
use open_data_gov.Prelude.Exec.{Exec, pure, raise, raise_if, ◌>>=◌, ◌>>◌}
use open_data_gov.Enums.Governance.{RaciRole, raci_role_value}
use open_data_gov.Privacy.Masking.{text_drop}
use open_data_gov.Expert.Rules.{starts_with}
use open_data_gov.Auth.Users.{TokenPayload, UserContext, token_roles, get_anonymous_user}
use open_data_gov.Auth.Clients.{
  AccessInput, OpaReply, OpaClient, KeycloakVerifier, check_permission, verify_token, AuthSettings,
  Singletons, get_keycloak, get_opa,
}

-- the statuses 401 and 403
pub data AuthError : Type 0 where
  unauthorized forbidden : AuthError

-- What is read of a request: the header `Authorization` if it is there, and the path of its URL.
pub record AuthRequest : Type 0 where
  pub authorization : Option String
  pub path : String

abbrev pub AuthAction : Type 0 → Type 0
AuthAction A = Exec Singletons AuthError A

abbrev pub bearer : String
bearer = "Bearer "

-- the user of a payload
unfoldable pub user_of : TokenPayload → UserContext
unfolding token_roles
user_of payload = record {
  user_id = payload.sub;
  username = payload.preferred_username;
  email = payload.email;
  roles = token_roles payload;
  is_authenticated = true;
}

unfoldable pub auth_header : AuthRequest → String
auth_header request = elim request.authorization [ none ↦ "" | some header ↦ header ]

-- what `get_current_user` does with the verifier
unfoldable pub identified : KeycloakVerifier → AuthRequest → AuthAction UserContext
identified keycloak request =
    if not keycloak.enabled
    then pure get_anonymous_user
    else if not (starts_with bearer (auth_header request))
    then pure get_anonymous_user
    else elim (verify_token keycloak (text_drop (text_length bearer) (auth_header request))) [
      | none ↦ raise AuthError.unauthorized
      | some payload ↦ pure (user_of payload)
    ]

module _ (settings : AuthSettings) (post : AccessInput → OpaReply) where
  unfoldable pub get_current_user : AuthRequest → AuthAction UserContext
  get_current_user request = do keycloak ← get_keycloak settings; identified keycloak request

  -- the test of `_check_role` on an authenticated user, which raises where it holds
  unfoldable pub lacks_role : OpaClient → RaciRole → AuthRequest → UserContext → Bool
  lacks_role opa role request user =
      if opa.enabled
      then not
          (check_permission post opa user.user_id user.roles (raci_role_value role) request.path)
      else not (any (λ r. r == raci_role_value role) user.roles)

  -- `_check_role`, with the user that it depends on
  unfoldable pub check_role : RaciRole → AuthRequest → UserContext → AuthAction UserContext
  check_role role request user = do
    raise_if (not user.is_authenticated) AuthError.unauthorized
    opa ← get_opa settings
    raise_if (lacks_role opa role request user) AuthError.forbidden
    pure user

  -- `Depends(require_role(role))`: the current user is found first
  unfoldable pub require_role : RaciRole → AuthRequest → AuthAction UserContext
  require_role role request = do user ← get_current_user request; check_role role request user

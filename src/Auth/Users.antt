-- ===== src/Auth/Users.antt =====
-- libs/python/odg-core/src/odg_core/auth: models.py, and get_anonymous_user of middleware.py.
use open_data_gov.Prelude.{String, Bool, false, List, [], none, some, string_eq}
use open_data_gov.Prelude.Dict.{get}

-- The resource roles are not read.
pub record TokenPayload : Type 0 where
  pub sub : String
  pub email : String
  pub realm_access : List (String × List String)
  pub preferred_username : String

-- the property `roles`
unfoldable pub token_roles : TokenPayload → List String
token_roles payload = elim (get "roles" payload.realm_access) [ none ↦ [] | some roles ↦ roles ]

pub record UserContext : Type 0 where
  pub user_id : String
  pub username : String
  pub email : String
  pub roles : List String
  pub is_authenticated : Bool

unfoldable pub get_anonymous_user : UserContext
get_anonymous_user = record {
  user_id = "anonymous";
  username = "anonymous";
  email = "";
  roles = [];
  is_authenticated = false;
}

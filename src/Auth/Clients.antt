-- ===== src/Auth/Clients.antt =====
-- libs/python/odg-core/src/odg_core/auth: keycloak.py, opa.py, and the singletons of middleware.py.
use open_data_gov.Prelude.{String, Bool, true, false, List, Option, none, some, if◌then◌else◌}
use open_data_gov.Prelude.Exec.{ok, Exec}
use open_data_gov.Auth.Users.{TokenPayload}

pub record KeycloakVerifier : Type 0 where
  pub enabled : Bool

-- A placeholder in the source: no token is ever verified.
unfoldable pub verify_token : KeycloakVerifier → String → Option TokenPayload
verify_token keycloak token = if keycloak.enabled then none else none

pub record OpaClient : Type 0 where
  pub enabled : Bool

pub record AccessInput : Type 0 where
  pub user : String
  pub roles : List String
  pub resource : String
  pub action : String

-- What the policy engine answers: an exception on the way, or a document, with the truth of its
-- "result" if it has one.
pub data OpaReply : Type 0 where
  failed : OpaReply
  answered : Option Bool → OpaReply

module _ (post : AccessInput → OpaReply) where
  unfoldable pub check_access : OpaClient → AccessInput → Bool
  check_access opa input =
      if opa.enabled
      then elim (post input) [
        | OpaReply.failed ↦ false
        | OpaReply.answered result ↦ elim result [ none ↦ false | some allowed ↦ allowed ]
      ]
      else true

  unfoldable pub check_permission :
      OpaClient → (user_id : String) → (roles : List String) → (action resource : String) → Bool
  unfolding check_access
  check_permission opa user_id roles action resource =
      check_access opa
        (record { user = user_id; roles = roles; resource = resource; action = action })

-- `enabled` of KeycloakSettings and of OPASettings, as the environment gives it
pub record AuthSettings : Type 0 where
  pub keycloak_enabled : Bool
  pub opa_enabled : Bool

-- the globals `_keycloak` and `_opa`
pub record Singletons : Type 0 where
  pub keycloak : Option KeycloakVerifier
  pub opa : Option OpaClient

module _ (settings : AuthSettings) {Error : Type 0} where
  unfoldable pub get_keycloak : Exec Singletons Error KeycloakVerifier
  get_keycloak s = elim s.keycloak [
    | some keycloak ↦ (ok keycloak, s)
    | none ↦
        let keycloak : KeycloakVerifier = record { enabled = settings.keycloak_enabled } in
        (ok keycloak, record s { keycloak = some keycloak })
  ]

  unfoldable pub get_opa : Exec Singletons Error OpaClient
  get_opa s = elim s.opa [
    | some opa ↦ (ok opa, s)
    | none ↦
        let opa : OpaClient = record { enabled = settings.opa_enabled } in
        (ok opa, record s { opa = some opa })
  ]

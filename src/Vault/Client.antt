-- ===== src/Vault/Client.antt =====
-- libs/python/odg-core/src/odg_core/vault/client.py
use open_data_gov.Prelude.{
  String, Bool, true, false, not, ◌&&◌, Option, none, some, ◌==◌, string_eq, if◌then◌else◌,
}
use open_data_gov.Prelude.Exec.{Result, ok, err, Exec, lift, ◌>>=◌}
use open_data_gov.Vault.Hvac.{Hvac}

pub record VaultSettings : Type 0 where
  pub addr : String
  pub token : String
  pub enabled : Bool

-- the server, and the attribute `_client`
pub record Vault (Server Connection : Type 0) : Type 0 where
  pub server : Server
  pub client : Option Connection

-- the three RuntimeErrors, and what hvac raises
pub data VaultError (Failure : Type 0) : Type 0 where
  not_configured not_installed not_authenticated : VaultError Failure
  vault_failure : Failure → VaultError Failure

unfoldable pub is_configured : VaultSettings → Bool
is_configured settings = settings.enabled && not (settings.token == "")

module _ {Server Failure Connection Response Secret : Type 0}
    (hvac : Hvac Server Failure Connection Response Secret) (settings : VaultSettings) where
  abbrev pub VaultAction : Type 0 → Type 0
  VaultAction A = Exec (Vault Server Connection) (VaultError Failure) A

  unfoldable pub raised : {A : Type 0} → Result Failure A → Result (VaultError Failure) A
  raised (ok a) = ok a
  raised (err e) = err (VaultError.vault_failure e)

  -- an action of hvac, in the client
  unfoldable pub on_server : {A : Type 0} → Exec Server Failure A → VaultAction A
  unfolding raised
  on_server m s = (raised (m s.server).0, record s { server = (m s.server).1 })

  -- what is made of the answer to `is_authenticated`
  unfoldable pub authenticated :
      Connection → Result Failure Bool → Result (VaultError Failure) Connection
  authenticated connection (err e) = err (VaultError.vault_failure e)
  authenticated connection (ok false) = err VaultError.not_authenticated
  authenticated connection (ok true) = ok connection

  -- The client is stored before it is asked whether it is authenticated.
  unfoldable pub initialize : VaultAction Connection
  unfolding authenticated
  initialize s =
      let connection = hvac.connect settings.addr settings.token in
      let (r, server) = hvac.is_authenticated connection s.server in
      (authenticated connection r, record { server = server; client = some connection })

  unfoldable pub ensure_client : VaultAction Connection
  ensure_client s = elim s.client [
    | some connection ↦ (ok connection, s)
    | none ↦
        if not (is_configured settings)
        then (err VaultError.not_configured, s)
        else if not hvac.installed
        then (err VaultError.not_installed, s)
        else initialize s
  ]

  unfoldable pub read_secret : (path mount_point : String) → VaultAction Secret
  read_secret path mount_point = do
    client ← ensure_client
    response ← on_server (hvac.read_secret_version client path mount_point)
    lift (raised (hvac.secret_data response))

  unfoldable pub write_secret :
      (path : String) → Secret → (mount_point : String) → VaultAction (Unit {0})
  write_secret path content mount_point = do
    client ← ensure_client
    on_server (hvac.create_or_update_secret client path content mount_point)

  unfoldable pub transit_encrypt : (key_name plaintext_b64 : String) → VaultAction String
  transit_encrypt key_name plaintext_b64 = do
    client ← ensure_client
    result ← on_server (hvac.encrypt_data client key_name plaintext_b64)
    lift (raised (hvac.ciphertext_data result))

  unfoldable pub transit_decrypt : (key_name ciphertext : String) → VaultAction String
  transit_decrypt key_name ciphertext = do
    client ← ensure_client
    result ← on_server (hvac.decrypt_data client key_name ciphertext)
    lift (raised (hvac.plaintext_data result))

-- ===== src/Vault/Connecting.antt =====
-- When the client is connected.
use open_data_gov.Prelude.{◌≡◌, refl, true, Option-cases, inl, inr}
use open_data_gov.Prelude.Exec.{ok}
use open_data_gov.Vault.Hvac.{Hvac}
use open_data_gov.Vault.Client.{Vault, VaultSettings, is_configured, initialize, ensure_client}

module _ {Server Failure Connection Response Secret : Type 0}
    (hvac : Hvac Server Failure Connection Response Secret) (settings : VaultSettings) where
  -- With a token and the package, a second call returns a client and changes nothing, whatever the
  -- first call did: also where the first one raised since the client was not authenticated.
  pub ensure_client-again :
      (s : Vault Server Connection)
      → is_configured settings ≡ true
      → hvac.installed ≡ true
      → let after = (ensure_client hvac settings s).1 in
        (client : Connection) × (ensure_client hvac settings after ≡ (ok client, after))
  unfolding ensure_client initialize
  ensure_client-again s configured installed = elim (Option-cases s.client) [
    | inl absent ↦
        rw (absent, configured, installed) (hvac.connect settings.addr settings.token, refl)
    | inr (client, present) ↦ rw present (client, refl)
  ]

-- ===== src/Scenarios/Vault.antt =====
-- A Vault server in memory that accepts one token.
use open_data_gov.Prelude.{
  String, ◌≡◌, refl, Bool, true, false, ◌||◌, none, ◌==◌, string_eq, ==_refl, arith, if◌then◌else◌,
}
use open_data_gov.Prelude.Exec.{ok, err}
use open_data_gov.Vault.Hvac.{Hvac}
use open_data_gov.Vault.Client.{Vault, VaultSettings, is_configured, ensure_client}
use open_data_gov.Vault.Sse.{ensure_transit_key}
use open_data_gov.Vault.Connecting.{ensure_client-again}
use open_data_gov.Vault.Keys.{KeepsKeys, ensure_transit_key_lem}

-- the keys of the server
abbrev Keys : Type 0
Keys = String → Bool

-- A connection is its token.
abbrev token_server : Hvac Keys String String String String
token_server = record {
  installed = true;
  connect = λ addr token. token;
  is_authenticated = λ c keys. (ok (c == "root"), keys);
  read_secret_version = λ c path mount keys. (err "no secret", keys);
  create_or_update_secret = λ c path content mount keys. (ok tt, keys);
  encrypt_data = λ c name plaintext keys. (ok plaintext, keys);
  decrypt_data = λ c name ciphertext keys. (ok ciphertext, keys);
  read_key = λ c name keys. ((if keys name then ok tt else err "no key"), keys);
  create_key = λ c name key_type keys. (ok tt, λ n. n == name || keys n);
  secret_data = λ r. ok r;
  ciphertext_data = λ r. ok r;
  plaintext_data = λ r. ok r;
}

token_server-KeepsKeys : KeepsKeys token_server (λ keys name. keys name)
token_server-KeepsKeys = record {
  reads = λ c name keys done. ground (arith, done);
  creates = λ c name key_type keys done. ground (arith, ==_refl name);
}

abbrev fresh : Vault Keys String
fresh = record { server = λ n. false; client = none }

abbrev settings_with : String → VaultSettings
settings_with token = record { addr = "http://localhost:8200"; token = token; enabled = true }

ensure_client-again_example :
    let after = (ensure_client token_server (settings_with "stolen") fresh).1 in
    (client : String) × (ensure_client token_server (settings_with "stolen") after
      ≡ (ok client, after))
unfolding is_configured
ensure_client-again_example =
    ensure_client-again token_server (settings_with "stolen") fresh refl refl

ensure_transit_key_lem_example :
    (b : Bool) × ((ensure_transit_key token_server (settings_with "root") "disk" fresh).0 ≡ ok b)
    × (b ≡ true
        → (ensure_transit_key token_server (settings_with "root") "disk" fresh).1.server "disk"
          ≡ true)
ensure_transit_key_lem_example =
    ensure_transit_key_lem token_server (settings_with "root") (λ keys name. keys name)
      token_server-KeepsKeys "disk" fresh

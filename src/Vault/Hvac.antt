-- ===== src/Vault/Hvac.antt =====
-- What libs/python/odg-core/src/odg_core/vault calls of the package hvac.
use open_data_gov.Prelude.{String, Bool}
use open_data_gov.Prelude.Exec.{Result, Exec}

-- Whether the package is installed, its client, and what is read of its responses, which raises
-- where an entry is missing.
pub record Hvac (Server Failure Connection Response Secret : Type 0) : Type 0 where
  pub installed : Bool
  pub connect : (addr token : String) → Connection
  pub is_authenticated : Connection → Exec Server Failure Bool
  pub read_secret_version : Connection → (path mount_point : String) → Exec Server Failure Response
  pub create_or_update_secret :
      Connection
      → (path : String) → Secret
      → (mount_point : String) → Exec Server Failure (Unit {0})
  pub encrypt_data : Connection → (name plaintext : String) → Exec Server Failure Response
  pub decrypt_data : Connection → (name ciphertext : String) → Exec Server Failure Response
  pub read_key : Connection → (name : String) → Exec Server Failure (Unit {0})
  pub create_key : Connection → (name key_type : String) → Exec Server Failure (Unit {0})
  pub secret_data : Response → Result Failure Secret
  pub ciphertext_data : Response → Result Failure String
  pub plaintext_data : Response → Result Failure String

-- ===== src/Vault/Sse.antt =====
-- libs/python/odg-core/src/odg_core/vault/minio_sse.py
use open_data_gov.Prelude.{String, Bool, true, false, List, [], ◌∷◌}
use open_data_gov.Prelude.Exec.{Result, ok, err, Exec, ◌>>=◌}
use open_data_gov.Vault.Hvac.{Hvac}
use open_data_gov.Vault.Client.{Vault, VaultSettings, VaultError, ensure_client, on_server}

-- DEFAULT_TRANSIT_KEY
abbrev pub default_transit_key : String
default_transit_key = "opendatagov-minio"

unfoldable pub rescued : {S E A : Type 0} → Result E A → Exec S E A → Exec S E A
rescued (ok a) handler s = (ok a, s)
rescued (err e) handler s = handler s

-- `try: m except Exception: handler`
unfoldable pub rescue : {S E A : Type 0} → Exec S E A → Exec S E A → Exec S E A
unfolding rescued
rescue m handler s = rescued (m s).0 handler (m s).1

unfoldable pub is_ok : {E A : Type 0} → Result E A → Bool
is_ok (ok a) = true
is_ok (err e) = false

-- `try: m except Exception: return False else: return True`
unfoldable pub succeeds : {S E A : Type 0} → Exec S E A → Exec S E Bool
unfolding is_ok
succeeds m s = (ok (is_ok (m s).0), (m s).1)

module _ {Server Failure Connection Response Secret : Type 0}
    (hvac : Hvac Server Failure Connection Response Secret) (settings : VaultSettings) where
  -- the inner try
  unfoldable pub read_or_create :
      String → Connection → Exec (Vault Server Connection) (VaultError Failure) (Unit {0})
  unfolding rescue
  read_or_create key_name client =
      rescue (on_server hvac settings (hvac.read_key client key_name))
        (on_server hvac settings (hvac.create_key client key_name "aes256-gcm96"))

  unfoldable pub ensure_transit_key :
      String → Exec (Vault Server Connection) (VaultError Failure) Bool
  unfolding succeeds
  ensure_transit_key key_name =
      succeeds (ensure_client hvac settings >>= λ client. read_or_create key_name client)

unfoldable pub get_sse_headers : String → List (String × String)
get_sse_headers key_name =
    ("x-amz-server-side-encryption", "aws:kms")
    ∷ ("x-amz-server-side-encryption-aws-kms-key-id", key_name)
    ∷ []

-- ===== src/Vault/Keys.antt =====
-- When a transit key is there.
use open_data_gov.Prelude.{String, ◌≡◌, refl, ap, ◌∙◌, sym, Bool, true}
use open_data_gov.Prelude.Exec.{Result, Exec, ok, err, ◌>>=◌}
use open_data_gov.Prelude.Returns.{bind-ok}
use open_data_gov.Vault.Hvac.{Hvac}
use open_data_gov.Vault.Client.{Vault, VaultSettings, raised, on_server, ensure_client}
use open_data_gov.Vault.Sse.{rescued, rescue, is_ok, succeeds, read_or_create, ensure_transit_key}

-- What the server documents of keys: one that can be read, or was created, is there.
pub record KeepsKeys {Server Failure Connection Response Secret : Type 0}
    (hvac : Hvac Server Failure Connection Response Secret) (has_key : Server → String → Bool)
    : Type 0 where
  pub reads :
      (c : Connection) (name : String) (s : Server)
      → (hvac.read_key c name s).0 ≡ ok tt
      → has_key (hvac.read_key c name s).1 name ≡ true
  pub creates :
      (c : Connection) (name key_type : String) (s : Server)
      → (hvac.create_key c name key_type s).0 ≡ ok tt
      → has_key (hvac.create_key c name key_type s).1 name ≡ true

rescued-Ensures :
    {S E : Type 0} (P : S → Type 0) (r : Result E (Unit {0})) (handler : Exec S E (Unit {0}))
    (s : S)
    → (r ≡ ok tt → P s)
    → ((handler s).0 ≡ ok tt → P (handler s).1)
    → (rescued r handler s).0 ≡ ok tt
    → P (rescued r handler s).1
unfolding rescued
rescued-Ensures P (ok u) handler s first second done = first refl
rescued-Ensures P (err e) handler s first second done = second done

is_ok_lem : {E : Type 0} (r : Result E (Unit {0})) → is_ok r ≡ true → r ≡ ok tt
unfolding is_ok
is_ok_lem (ok u) h = refl
is_ok_lem (err e) h = absurd (cc (h))

module _ {Server Failure Connection Response Secret : Type 0}
    (hvac : Hvac Server Failure Connection Response Secret) (settings : VaultSettings)
    (has_key : Server → String → Bool) (keeps : KeepsKeys hvac has_key) where
  raised_ok : (r : Result Failure (Unit {0})) → raised hvac settings r ≡ ok tt → r ≡ ok tt
  unfolding raised
  raised_ok (ok u) h = refl
  raised_ok (err e) h = absurd (cc (h))

  readable :
      (c : Connection) (name : String) (s : Vault Server Connection)
      → (read_or_create hvac settings name c s).0 ≡ ok tt
      → has_key (read_or_create hvac settings name c s).1.server name ≡ true
  unfolding read_or_create rescue on_server
  readable c name s done =
      rescued-Ensures (λ v. has_key v.server name ≡ true)
        (on_server hvac settings (hvac.read_key c name) s).0
        (on_server hvac settings (hvac.create_key c name "aes256-gcm96"))
        (on_server hvac settings (hvac.read_key c name) s).1
        (λ h. keeps.reads c name s.server (raised_ok _ h))
        (λ h. keeps.creates c name "aes256-gcm96" _ (raised_ok _ h)) done

  -- Ensuring a key never raises, and where it answers true, the server has the key.
  pub ensure_transit_key_lem :
      (name : String) (s : Vault Server Connection)
      → (b : Bool) × ((ensure_transit_key hvac settings name s).0 ≡ ok b)
        × (b ≡ true → has_key (ensure_transit_key hvac settings name s).1.server name ≡ true)
  unfolding ensure_transit_key succeeds
  ensure_transit_key_lem name s =
      let ensured =
        ensure_client hvac settings >>= λ client. read_or_create hvac settings name client in
      (
        is_ok (ensured s).0,
        refl,
        λ h.
            let done = is_ok_lem (ensured s).0 h in
            let (c, connected, rest) =
              bind-ok (ensure_client hvac settings)
                (λ client. read_or_create hvac settings name client) s tt done in
            ap (λ p. has_key p.1.server name) rest
            ∙ readable c name (ensure_client hvac settings s).1 (ap (λ p. p.0) (sym rest) ∙ done),
      )

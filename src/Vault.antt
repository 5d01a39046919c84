-- ===== src/Vault.antt =====
-- libs/python/odg-core/src/odg_core/vault: secrets and encryption keys.
pub mod Hvac
pub mod Client
pub mod Sse
pub mod Connecting
pub mod Keys

-- ===== src/Auth.antt =====
-- libs/python/odg-core/src/odg_core/auth: who a request comes from, and what it may do.
pub mod Users
pub mod Clients
pub mod Dependencies
pub mod Access

-- ===== src/Contracts.antt =====
-- libs/python/odg-core/src/odg_core/contracts: changes of a contract's schema, and data against it.
pub mod Schema
pub mod Breaking
pub mod Governance
pub mod Validator
pub mod Compatible
pub mod Readers
pub mod Actions
pub mod Validity

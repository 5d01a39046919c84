-- ===== src/Enums.antt =====
-- libs/python/odg-core/src/odg_core/enums.py
pub mod Governance
pub mod Data
pub mod Compliance

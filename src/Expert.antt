-- ===== src/Expert.antt =====
-- The data expert: odg_core/expert.py and services/data-expert/src/data_expert.
pub mod Capability
pub mod Mock
pub mod Api
pub mod Rules
pub mod Discovery
pub mod Recommending
pub mod Conditions
pub mod Matching

-- ===== src/Scenarios.antt =====
-- Concrete runs of the program: two runtimes, and the theorems at them.
pub mod Toy
pub mod Staff
pub mod Encoder
mod Trails
mod Decisions
mod Contracts
mod Lakehouse
mod Votes
mod Privacy
mod Approvals
mod Events
mod Quality
mod Expert
mod Regulation
mod Access
mod Catalog
mod Storage
mod Schema
mod Detection
mod Vault

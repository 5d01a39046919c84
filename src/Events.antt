-- ===== src/Events.antt =====
-- How audit events leave the engine and come back: services/governance-engine/.../events.
pub mod Consumer
pub mod Chain
pub mod Log
pub mod Producer
pub mod Publisher
pub mod Delivery

-- ===== src/Storage.antt =====
-- The buckets of the lakehouse agent in MinIO, and the agent's routes.
pub mod Client
pub mod Manager
pub mod Documented
pub mod Reading
pub mod Ensured
pub mod Api

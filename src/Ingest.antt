-- ===== src/Ingest.antt =====
-- crates/services/api-optel: what an export request passes before it is converted and stored.
pub mod Status
pub mod Caps
pub mod Breaker
pub mod Guard

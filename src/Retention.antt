-- ===== src/Retention.antt =====
-- Deletion of old data, and the queries that must not miss it (crates/core/zradar-retention/src).
pub mod Config
pub mod Enforcer
pub mod Cleanup
pub mod Leases
pub mod Reclaimer

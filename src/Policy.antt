-- ===== src/Policy.antt =====
-- crates/core/zradar-policy: which requests a workspace's limits let through.
pub mod Types
pub mod Limits
pub mod Checks
pub mod Enforcer

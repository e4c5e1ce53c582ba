-- ===== src/Examples.antt =====
-- Runs of the models on small inputs, and the theorems at inputs that meet their hypotheses.
pub mod Data
mod Records
pub mod Logs
mod Policies
mod Exports
mod Flushes
mod Batches
mod Rounds
mod Reopening
mod Passes
pub mod Replays
pub mod Buffers
mod Expiry

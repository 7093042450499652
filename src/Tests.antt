-- ===== src/Tests.antt =====
-- Runs of the development's theorems at concrete inputs.
pub mod Server
mod Deploy
mod Diff
mod Objects
mod Helpers
mod Validation
mod Commands
mod Parallel
mod Validate

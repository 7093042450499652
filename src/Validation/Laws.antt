-- ===== src/Validation/Laws.antt =====
-- The theorems on pkg/validation/validation.go.
pub mod Kept
pub mod Kinds
pub mod Object
pub mod Verdict
pub mod Report

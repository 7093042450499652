-- ===== src/Validation.antt =====
-- pkg/validation/validation.go: whether an object is ready, as its status tells.
pub mod Flow
pub mod Status
pub mod Percent
pub mod Kinds
pub mod Object
pub mod Laws

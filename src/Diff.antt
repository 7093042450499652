-- ===== src/Diff.antt =====
-- pkg/diff: what is shown of the differences between objects.
pub mod Obfuscate

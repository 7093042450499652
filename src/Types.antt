-- ===== src/Types.antt =====
-- pkg/types: the data types that the other packages share.
pub mod ObjectRef

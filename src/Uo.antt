-- ===== src/Uo.antt =====
-- pkg/utils/uo: objects without a schema, which the other packages read and edit.
pub mod Value
pub mod Child
pub mod Nested
pub mod Merge
pub mod JsonPath
pub mod Typed
pub mod K8s

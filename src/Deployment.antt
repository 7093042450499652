-- ===== src/Deployment.antt =====
-- pkg/deployment/utils: applying, waiting for and deleting the objects of a deployment.
pub mod Errors
pub mod Apply
pub mod Delete
pub mod Remote
pub mod Diff

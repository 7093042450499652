-- ===== src/Utils.antt =====
-- pkg/utils: helpers of the other packages.
pub mod Parse
pub mod Inclusion
pub mod OrderedMap

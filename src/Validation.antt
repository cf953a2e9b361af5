-- ===== src/Validation.antt =====
-- src/validation.rs: the checks of a build request, in the order of the source.
pub mod Fields
pub mod Paths
pub mod Rollout
pub mod Requests

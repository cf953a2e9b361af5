-- ===== src/Jobs/Claims.antt =====
-- src/jobs.rs: request-id claims. A claim is a member of `recent_request_ids`; its holders are the
-- retained jobs whose request carries the id.
pub mod Holders
pub mod Ids
pub mod Invariant
pub mod Admission
pub mod Cases
pub mod Enqueue
pub mod Retained

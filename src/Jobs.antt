-- ===== src/Jobs.antt =====
-- src/jobs.rs: the job map, its pruning, the admission of requests and the life of one job.
pub mod Map
pub mod Requests
pub mod Store
pub mod Enqueue
pub mod Claims
pub mod Run
pub mod Execute
pub mod Nats
pub mod System

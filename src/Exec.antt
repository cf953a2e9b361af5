-- ===== src/Exec.antt =====
-- src/exec.rs: the commands that the executors run, and the log that they write.
pub mod Display
pub mod Log
pub mod Host
pub mod Run
pub mod Keeps

-- ===== src/Tests.antt =====
-- Each theorem that has hypotheses, applied at an input where they hold.
mod Data
mod Jobs
mod System
mod Validation
mod Services
mod Execution
mod Settings
mod Http

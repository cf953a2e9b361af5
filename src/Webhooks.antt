-- ===== src/Webhooks.antt =====
-- src/webhooks.rs: the webhook rules and the GitHub deliveries. Registry notifications are not
-- modelled.
pub mod Matching
pub mod Github

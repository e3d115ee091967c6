-- ===== src/Quota.antt =====
-- Package internal/quota, and the quota half of internal/models.
pub mod Tracker
mod Examples

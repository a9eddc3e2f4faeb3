-- ===== src/Notify.antt =====
-- internal/notify: thresholds, the firing state of alerts, and what is delivered.
pub mod Thresholds
pub mod Evaluate
pub mod Quiet
pub mod Notifier
pub mod Inbox

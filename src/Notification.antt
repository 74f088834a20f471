-- ===== src/Notification.antt =====
-- internal/notification: the text of an alert, and the channels that deliver it.
pub mod Message
pub mod Notifier
pub mod Retry
pub mod Channels

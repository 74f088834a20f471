-- ===== src/Server.antt =====
-- cmd/server/main.go: what the start of the program makes of its configuration.
pub mod Notifiers
pub mod Schedules
pub mod Chats

-- ===== src/Chat.antt =====
-- internal/chat: the commands of a chat, their authorisation, and the configuration sessions.
pub mod Command
pub mod Parser
pub mod Session
pub mod Service
pub mod Selection
pub mod Adapter
pub mod Telegram
pub mod Slack

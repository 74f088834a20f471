-- ===== src/Chat/Slack.antt =====
-- internal/chat/slack: the adapter that turns slash commands and Block Kit interactions into chat
-- commands.
pub mod Types
pub mod Signature
pub mod Blocks
pub mod Client
pub mod Adapter
pub mod Controls
pub mod Webhook

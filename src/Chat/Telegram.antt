-- ===== src/Chat/Telegram.antt =====
-- internal/chat/telegram: the adapter that turns the updates of a Telegram bot into chat commands.
pub mod Types
pub mod Callback
pub mod Client
pub mod Keyboard
pub mod Adapter
pub mod Buttons
pub mod Webhook

-- ===== src/Chat/Telegram/Types.antt =====
-- internal/chat/telegram/types.go; an `int64` is its 64-bit pattern.
use crypto_price_alert.Base.{ℕ, String, Bool, Option, List}

pub record User : Type 0 where
  pub id : ℕ
  pub username : String
  pub first_name : String

pub record Chat : Type 0 where
  pub id : ℕ
  pub kind : String
  pub title : String

pub record Message : Type 0 where
  pub message_id : ℕ
  pub sender : Option User
  pub chat : Chat
  pub text : String

pub record CallbackQuery : Type 0 where
  pub id : String
  pub sender : User
  pub message : Option Message
  pub payload : String

pub record Update : Type 0 where
  pub update_id : ℕ
  pub message : Option Message
  pub callback_query : Option CallbackQuery

pub record ChatMember : Type 0 where
  pub user : User
  pub status : String

pub record InlineKeyboardButton : Type 0 where
  pub text : String
  pub callback_data : String

pub record InlineKeyboardMarkup : Type 0 where
  pub inline_keyboard : List (List InlineKeyboardButton)

pub record BotCommand : Type 0 where
  pub command : String
  pub description : String

-- `apiResponse` with the result as the text of its JSON
pub record ApiResponse : Type 0 where
  pub is_ok : Bool
  pub description : String
  pub result : String

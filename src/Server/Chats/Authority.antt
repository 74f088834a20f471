-- ===== src/Server/Chats/Authority.antt =====
-- The chat handlers of cmd/server/main.go obey the creator of a chat alone.
use crypto_price_alert.Base.{
  ℕ, String, List, true, none, ◌≡◌, ◌≢◌, ok, arith, Result-cases, inl, inr, err≢ok, ap,
}
use crypto_price_alert.Domain.Target.{AlertTarget}
use crypto_price_alert.Config.Settings.{Config}
use crypto_price_alert.Chat.Command.{is_mutation, authorize_creator}
use crypto_price_alert.Chat.Parser.{parse_command}
use crypto_price_alert.Chat.Service
use crypto_price_alert.Chat.Service.{Service}
use crypto_price_alert.Chat.Adapter.{HttpClient}
use crypto_price_alert.Chat.Telegram.Types.{User, Message}
use crypto_price_alert.Chat.Telegram.Client as TelegramClient
use crypto_price_alert.Chat.Telegram.Client.{send_message}
use crypto_price_alert.Chat.Telegram.Adapter.{Adapter, answer_message, user_id_string, new_adapter}
use crypto_price_alert.Chat.Telegram.Adapter.Authority.{answer_message-outsider}
use crypto_price_alert.Server.Chats.{
  Backend, command_port, new_chat_service, new_telegram_chat_handler,
}

module _ {F W : Type 0} (c : Config) (b : Backend F W) where
  new_chat_service-creators :
      (s : Service W) → new_chat_service c b ≡ ok s → s.authorize ≡ authorize_creator
  unfolding new_chat_service Service.new_service
  new_chat_service-creators s h = ground arith

  -- The service behind an adapter.
  record Wired (a : Adapter F W) : Type 0 where
    service : Service W
    commands : a.commands ≡ command_port service
    creators : service.authorize ≡ authorize_creator

  new_telegram_chat_handler-Wired :
      (http : HttpClient TelegramClient.Payload W) (decoder : TelegramClient.Decoder)
      (a : Adapter F W)
      → new_telegram_chat_handler c b http decoder ≡ ok a
      → Wired a
  unfolding new_telegram_chat_handler new_adapter
  new_telegram_chat_handler-Wired http decoder a h = elim (Result-cases (new_chat_service c b)) [
    | inr (error, s) ↦ absurd (err≢ok (rw (new_telegram_chat_handler, s) at h))
    | inl (service, s) ↦ record {
      service = service;
      commands = ground arith;
      creators = new_chat_service-creators service s;
    }
  ]

  pub telegram_handler-outsider :
      (http : HttpClient TelegramClient.Payload W) (decoder : TelegramClient.Decoder)
      (a : Adapter F W) (update_id : ℕ) (message : Message) (sender : User) (target : AlertTarget)
      (action : String) (arguments : List String) (w : W)
      → new_telegram_chat_handler c b http decoder ≡ ok a
      → parse_command message.text ≡ ok (action, arguments)
      → is_mutation action ≡ true
      → user_id_string sender.id ≢ target.creator_user_id
      → answer_message a update_id message sender target w
        ≡ send_message a.client message.chat.id "Unable to process the request." none w
  unfolding command_port
  telegram_handler-outsider http decoder a update_id message sender target action arguments w made =
      let wired = new_telegram_chat_handler-Wired http decoder a made in
      answer_message-outsider a wired.service (ap (λ p. p.handle) wired.commands) wired.creators
        update_id message sender target action arguments w

-- ===== src/Chat/Telegram/Adapter.antt =====
-- internal/chat/telegram/webhook.go: the adapter, and what it does with the message of an update.
pub mod Authority
use crypto_price_alert.Base.{
  ℕ, String, true, ◌==◌, string_eq, ◌||◌, Option, none, some, List, [], ◌∷◌, Error, failure, Result,
  ok, err, if◌then◌else◌,
}
use crypto_price_alert.Base.Text.{trim_space}
use crypto_price_alert.Base.Action.{Action, pure, lift, total, ◌>>=◌, ◌>>◌}
use crypto_price_alert.Domain.Interval.{Interval}
use crypto_price_alert.Domain.Provider.{telegram}
use crypto_price_alert.Domain.Target.{AlertTarget}
use crypto_price_alert.Market.Provider.{ProviderResolver}
use crypto_price_alert.Repository.Ports.{Host, AlertTargetRepository, InboundEventRepository}
use crypto_price_alert.Chat.Command
use crypto_price_alert.Chat.Command.{Command}
use crypto_price_alert.Chat.Parser.{parse_command}
use crypto_price_alert.Chat.Session.{ConfigSession}
use crypto_price_alert.Chat.Service.{SessionStore, int64_text}
use crypto_price_alert.Chat.Adapter.{CommandService}
use crypto_price_alert.Chat.Telegram.Types.{User, Chat, Message, ChatMember}
use crypto_price_alert.Chat.Telegram.Client.{
  ApiClient, get_chat_administrators, send_message, register_default_commands, set_webhook,
}
use crypto_price_alert.Chat.Telegram.Keyboard.{
  symbol_selection_text, provider_selection_text, symbol_keyboard, provider_keyboard,
  single_provider,
}

pub record Adapter (F W : Type 0) : Type 0 where
  pub client : ApiClient W
  pub targets : AlertTargetRepository W
  pub events : InboundEventRepository W
  pub commands : CommandService W
  pub sessions : SessionStore W
  pub webhook_secret : String
  pub tenant_id : String
  pub allowed_symbols : List String
  pub allowed_intervals : List Interval
  pub providers : ProviderResolver F W
  pub host : Host W

-- `NewAdapter`; the wiring leaves no interface nil.
unfoldable pub new_adapter : {F W : Type 0} → Adapter F W → Result (Adapter F W)
unfolding trim_space
new_adapter settings =
    if trim_space settings.webhook_secret == "" || trim_space settings.tenant_id == ""
    then err (failure "invalid Telegram adapter settings")
    else ok settings

-- `chatIDString` and `userIDString`
unfoldable pub chat_id_string : ℕ → String
unfolding int64_text
chat_id_string id = int64_text id

unfoldable pub user_id_string : ℕ → String
unfolding int64_text
user_id_string id = int64_text id

-- The first member whose status is `creator`.
unfoldable pub find_creator : List ChatMember → Option ChatMember
find_creator [] = none
find_creator (admin ∷ rest) =
    let later = find_creator rest in if admin.status == "creator" then some admin else later

abbrev pub safe_error : Error → String
safe_error e = "Unable to process the request."

module _ {F W : Type 0} (a : Adapter F W) where
  unfoldable pub register_commands : Action W Unit
  register_commands = register_default_commands a.client

  unfoldable pub register_webhook : String → Action W Unit
  register_webhook url = set_webhook a.client url a.webhook_secret

  -- The creator of a chat, or the error of a chat without one.
  abbrev pub creator_of : List ChatMember → Result ChatMember
  creator_of admins = elim (find_creator admins) [
    | none ↦ err (failure "chat creator not found")
    | some creator ↦ ok creator
  ]

  unfoldable pub target_for_chat : Chat → Action W AlertTarget
  unfolding find_creator chat_id_string user_id_string
  target_for_chat chat = do
    admins ← get_chat_administrators a.client chat.id
    creator ← lift (creator_of admins)
    id ← total a.host.new_id
    a.targets.find_or_create_target (record {
      id = id;
      provider = telegram;
      tenant_id = a.tenant_id;
      external_chat_id = chat_id_string chat.id;
      display_name = chat.title;
      creator_user_id = user_id_string creator.user.id;
      enabled = true;
      created_at = 0;
      updated_at = 0;
    })

  -- The menu that opens a session.
  unfoldable pub open_menu : ℕ → ConfigSession → Action W Unit
  unfolding single_provider symbol_selection_text provider_selection_text symbol_keyboard
      provider_keyboard
  open_menu chat_id session = elim (single_provider a.providers) [
    | none ↦
        send_message a.client chat_id (provider_selection_text session)
          (some (provider_keyboard a.providers session))
    | some provider ↦
        (let selected : ConfigSession = record session { selected_provider = provider } in
          do
            a.sessions.update selected
            send_message a.client chat_id (symbol_selection_text selected)
                (some (symbol_keyboard a.providers a.allowed_symbols a.allowed_intervals selected)))
  ]

  unfoldable pub show_response : ℕ → Command → String → Action W Unit
  unfolding open_menu
  show_response chat_id command response =
      if command.action == Command.configure
      then (do session ← a.sessions.get response; open_menu chat_id session)
      else send_message a.client chat_id response none

  unfoldable pub handle_command : ℕ → Command → Action W Unit
  unfolding show_response
  handle_command chat_id command w =
      let (r, w1) = a.commands.handle command w in
      elim r [
        | err e ↦ send_message a.client chat_id (safe_error e) none w1
        | ok response ↦ show_response chat_id command response w1
      ]

  -- The text of a message, as a command of its sender about the target.
  unfoldable pub answer_message : ℕ → Message → User → AlertTarget → Action W Unit
  unfolding handle_command parse_command int64_text user_id_string
  answer_message update_id message sender target = elim (parse_command message.text) [
    | err e ↦ send_message a.client message.chat.id "Unknown command. Use /help." none
    | ok (action, arguments) ↦ handle_command message.chat.id (record {
      target = target;
      actor_user_id = user_id_string sender.id;
      action = action;
      arguments = arguments;
      event_id = int64_text update_id;
    })
  ]

  -- `process`, of an update with a message
  unfoldable pub process_message : ℕ → Message → Action W Unit
  unfolding target_for_chat answer_message trim_space
  process_message update_id message = elim message.sender [
    | none ↦ pure tt
    | some sender ↦ if trim_space message.text == "" then pure tt else (do
      target ← target_for_chat message.chat
      answer_message update_id message sender target)
  ]

-- ===== src/Chat/Telegram/Buttons.antt =====
-- internal/chat/telegram/webhook.go: what a press of a button does (`processCallback`).
pub mod Authority
use Prim.Native.String.{◌++◌ as ◌<>◌}
use crypto_price_alert.Base.{
  String, ◌==◌, string_eq, not, ◌&&◌, ◌||◌, none, some, List, [], ◌∷◌, failure, errorf, ok, err,
  fail_if, if◌then◌else◌,
}
use crypto_price_alert.Base.Action.{Action, pure, raise, lift, ◌>>=◌, ◌>>◌}
use crypto_price_alert.Domain.Interval.{Interval}
use crypto_price_alert.Domain.Provider.{MarketProvider, telegram}
use crypto_price_alert.Domain.Target.{AlertTarget}
use crypto_price_alert.Chat.Command
use crypto_price_alert.Chat.Command.{Command}
use crypto_price_alert.Chat.Session.{ConfigSession}
use crypto_price_alert.Chat.Selection.{
  available_symbols, available_intervals, keep_allowed, toggle, join_selected,
}
use crypto_price_alert.Chat.Telegram.Types.{
  Message, ChatMember, CallbackQuery, InlineKeyboardMarkup,
}
use crypto_price_alert.Chat.Telegram.Client.{
  get_chat_administrators, edit_message_text, answer_callback_query,
}
use crypto_price_alert.Chat.Telegram.Callback.{CallbackAction, parse_callback, read_action}
use crypto_price_alert.Chat.Telegram.Keyboard.{
  symbol_selection_text, provider_selection_text, interval_selection_text, symbol_keyboard,
  interval_keyboard, provider_keyboard, provider_enabled, empty_inline_keyboard,
}
use crypto_price_alert.Chat.Telegram.Adapter.{Adapter, find_creator, chat_id_string, user_id_string}

-- The identifier of the creator, which is empty if there is none.
unfoldable pub creator_id : List ChatMember → String
unfolding find_creator user_id_string
creator_id admins = elim (find_creator admins) [
  | none ↦ ""
  | some creator ↦ user_id_string creator.user.id
]

abbrev pub not_creator_error : String
not_creator_error = "only the chat creator can use this configuration control"

module _ {F W : Type 0} (a : Adapter F W) where
  unfoldable pub supported_symbols : ConfigSession → List String
  unfolding available_symbols keep_allowed
  supported_symbols session = keep_allowed session.selected_symbols (
      available_symbols a.providers a.allowed_symbols a.allowed_intervals session.selected_provider)

  unfoldable pub supported_intervals : ConfigSession → List Interval
  unfolding available_intervals keep_allowed
  supported_intervals session = keep_allowed session.selected_intervals (
      available_intervals a.providers a.allowed_symbols a.allowed_intervals
        session.selected_provider)

  -- `EditMessageText` on the message of the callback
  abbrev edit : Message → String → InlineKeyboardMarkup → Action W Unit
  edit message text keyboard =
      edit_message_text a.client message.chat.id message.message_id text (some keyboard)

  unfoldable pub show_symbols : Message → ConfigSession → Action W Unit
  unfolding symbol_selection_text symbol_keyboard
  show_symbols message session =
      edit message (symbol_selection_text session)
        (symbol_keyboard a.providers a.allowed_symbols a.allowed_intervals session)

  unfoldable pub show_intervals : Message → ConfigSession → Action W Unit
  unfolding interval_selection_text interval_keyboard
  show_intervals message session =
      edit message (interval_selection_text session)
        (interval_keyboard a.providers a.allowed_symbols a.allowed_intervals session)

  unfoldable pub show_providers : Message → ConfigSession → Action W Unit
  unfolding provider_selection_text provider_keyboard
  show_providers message session =
      edit message (provider_selection_text session) (provider_keyboard a.providers session)

  -- `UpdateSession` with the selection of the session
  abbrev store_selection : Command → ConfigSession → Action W Unit
  store_selection command session =
      a.commands.update_session command session.selected_provider session.selected_symbols
        session.selected_intervals

  -- The session with another provider, and with what this one offers of the selection.
  unfoldable pub with_provider : MarketProvider → ConfigSession → ConfigSession
  unfolding supported_symbols supported_intervals
  with_provider provider session =
      let chosen : ConfigSession = record session { selected_provider = provider } in
      record chosen {
        selected_symbols = supported_symbols chosen;
        selected_intervals = supported_intervals chosen;
      }

  unfoldable pub press_provider :
      Message → Command → ConfigSession → MarketProvider → Action W String
  unfolding with_provider provider_enabled show_providers
  press_provider message command session provider = do
    lift (
        fail_if (not (provider_enabled a.providers provider))
          (errorf "market provider %q is not enabled" (provider ∷ [])))
    store_selection command (with_provider provider session)
    show_providers message (with_provider provider session)
    pure ""

  unfoldable pub press_symbol : Message → Command → ConfigSession → String → Action W String
  unfolding toggle show_symbols
  press_symbol message command session symbol = do
    let chosen : ConfigSession = record session {
      selected_symbols = toggle session.selected_symbols symbol;
    }
    store_selection command chosen
    show_symbols message chosen
    pure ""

  unfoldable pub press_interval : Message → Command → ConfigSession → Interval → Action W String
  unfolding toggle show_intervals
  press_interval message command session interval = do
    let chosen : ConfigSession = record session {
      selected_intervals = toggle session.selected_intervals interval;
    }
    store_selection command chosen
    show_intervals message chosen
    pure ""

  unfoldable pub press_save : Message → Command → ConfigSession → Action W String
  unfolding join_selected
  press_save message command session = do
    response ← a.commands.handle command
    edit message
        (response
          <> "\nSymbols: "
          <> join_selected session.selected_symbols
          <> "\nIntervals: "
          <> join_selected session.selected_intervals)
        empty_inline_keyboard
    pure response

  unfoldable pub press_cancel : Message → Command → Action W String
  press_cancel message command = do
    response ← a.commands.handle (record command { action = Command.cancel })
    edit message response empty_inline_keyboard
    pure response

  -- The `switch` on the action; the result is the text of the answer.
  unfoldable pub press : Message → Command → ConfigSession → CallbackAction → Action W String
  unfolding press_provider press_symbol press_interval press_save press_cancel
  press message command session action = elim action [
    | CallbackAction.choose_provider provider ↦ press_provider message command session provider
    | CallbackAction.choose_symbol symbol ↦ press_symbol message command session symbol
    | CallbackAction.choose_interval interval ↦ press_interval message command session interval
    | CallbackAction.to_intervals ↦ (do show_intervals message session; pure "")
    | CallbackAction.to_symbols ↦ (do show_symbols message session; pure "")
    | CallbackAction.to_providers ↦ (do show_providers message session; pure "")
    | CallbackAction.save ↦ press_save message command session
    | CallbackAction.cancel ↦ press_cancel message command
    | CallbackAction.unsupported ↦ raise (failure "unsupported callback action")
  ]

  -- The session of a callback, which has to be the presser's own for the target.
  unfoldable pub own_session : String → AlertTarget → String → Action W ConfigSession
  own_session id target actor w =
      let (r, w1) = a.sessions.get id w in
      elim r [
        | err e ↦ (err (failure "invalid configuration session"), w1)
        | ok session ↦
            if not (session.target_id == target.id) || not (session.actor_user_id == actor)
            then (err (failure "invalid configuration session"), w1)
            else (ok session, w1)
      ]

  -- The callback of the creator of the chat.
  unfoldable pub press_button : CallbackQuery → Message → AlertTarget → Action W Unit
  unfolding parse_callback read_action own_session press user_id_string
  press_button callback message target = do
    control ← lift (parse_callback callback.payload)
    let command : Command = record {
      target = target;
      actor_user_id = user_id_string callback.sender.id;
      action = Command.save;
      arguments = control.0 ∷ [];
      event_id = "";
    }
    session ← own_session control.0 target (user_id_string callback.sender.id)
    answer ← press message command session (read_action control.1)
    answer_callback_query a.client callback.id answer

  -- `processCallback` of a callback with a message
  unfoldable pub press_on : CallbackQuery → Message → Action W Unit
  unfolding creator_id press_button chat_id_string user_id_string
  press_on callback message = do
    target ← a.targets.get_target telegram a.tenant_id (chat_id_string message.chat.id)
    admins ← get_chat_administrators a.client message.chat.id
    lift (
        fail_if
          (creator_id admins == "" || not (creator_id admins == user_id_string callback.sender.id))
          (failure not_creator_error))
    press_button callback message target

  unfoldable pub process_callback : CallbackQuery → Action W Unit
  unfolding press_on
  process_callback callback = elim callback.message [
    | none ↦ raise (failure "callback has no message")
    | some message ↦ press_on callback message
  ]

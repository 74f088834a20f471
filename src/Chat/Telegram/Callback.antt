-- ===== src/Chat/Telegram/Callback.antt =====
-- internal/chat/telegram/commands.go, and the actions that a button of webhook.go carries.
pub mod RoundTrip
use Prim.Native.String.{◌++◌ as ◌<>◌}
use crypto_price_alert.Base.{
  String, ◌==◌, string_eq, not, ◌||◌, none, some, List, map, failure, Result, ok, err,
  if◌then◌else◌,
}
use crypto_price_alert.Base.Text.{split_three, has_prefix, trim_prefix}
use crypto_price_alert.Domain.Interval.{Interval}
use crypto_price_alert.Domain.Provider.{MarketProvider}
use crypto_price_alert.Chat.Command.{public_command_definitions}
use crypto_price_alert.Chat.Telegram.Types.{BotCommand}

unfoldable pub bot_commands : List BotCommand
bot_commands =
    map
      (λ definition. record { command = definition.command; description = definition.description })
      public_command_definitions

unfoldable pub parse_callback : String → Result (String × String)
unfolding split_three
parse_callback text = elim (split_three 58 text) [
  | none ↦ err (failure "invalid callback payload")
  | some (app, id, action) ↦
      if not (app == "crypto-alert") || id == "" || action == ""
      then err (failure "invalid callback payload")
      else ok (id, action)
]

unfoldable pub callback_data : String → String → String
callback_data session_id action = "crypto-alert:" <> session_id <> ":" <> action

-- The cases of the `switch` of `processCallback`.
pub data CallbackAction : Type 0 where
  choose_provider : MarketProvider → CallbackAction
  choose_symbol : String → CallbackAction
  choose_interval : Interval → CallbackAction
  to_intervals : CallbackAction
  to_symbols : CallbackAction
  to_providers : CallbackAction
  save : CallbackAction
  cancel : CallbackAction
  unsupported : CallbackAction

unfoldable pub read_action : String → CallbackAction
unfolding trim_prefix
read_action action =
    if has_prefix action "provider:"
    then CallbackAction.choose_provider (trim_prefix action "provider:")
    else if has_prefix action "symbol:"
    then CallbackAction.choose_symbol (trim_prefix action "symbol:")
    else if has_prefix action "interval:"
    then CallbackAction.choose_interval (trim_prefix action "interval:")
    else if action == "next:intervals"
    then CallbackAction.to_intervals
    else if action == "next:symbols"
    then CallbackAction.to_symbols
    else if action == "back:providers"
    then CallbackAction.to_providers
    else if action == "back:symbols"
    then CallbackAction.to_symbols
    else if action == "save"
    then CallbackAction.save
    else if action == "cancel"
    then CallbackAction.cancel
    else CallbackAction.unsupported

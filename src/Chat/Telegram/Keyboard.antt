-- ===== src/Chat/Telegram/Keyboard.antt =====
-- The texts and the keyboards of internal/chat/telegram/webhook.go.
pub mod Answers
use Prim.Native.String.{◌++◌ as ◌<>◌}
use crypto_price_alert.Base.{
  Bool, String, ◌==◌, string_eq, Option, none, some, List, [], ◌∷◌, ◌++◌, contains, map,
  if◌then◌else◌,
}
use crypto_price_alert.Domain.Interval.{Interval}
use crypto_price_alert.Domain.Provider.{MarketProvider}
use crypto_price_alert.Market.Provider.{ProviderResolver}
use crypto_price_alert.Chat.Session.{ConfigSession}
use crypto_price_alert.Chat.Selection
use crypto_price_alert.Chat.Selection.{join_selected}
use crypto_price_alert.Chat.Telegram.Types.{InlineKeyboardButton, InlineKeyboardMarkup}
use crypto_price_alert.Chat.Telegram.Callback.{callback_data}

unfoldable pub symbol_selection_text : ConfigSession → String
unfolding join_selected
symbol_selection_text session =
    "Select symbols for alerts.\nSelected: " <> join_selected session.selected_symbols

unfoldable pub provider_selection_text : ConfigSession → String
provider_selection_text session =
    "Select a market provider.\nSelected: " <> session.selected_provider

unfoldable pub interval_selection_text : ConfigSession → String
unfolding join_selected
interval_selection_text session =
    "Select intervals for alerts.\nSelected: " <> join_selected session.selected_intervals

unfoldable pub selected_text : Bool → String → String
selected_text selected text = if selected then "✓ " <> text else text

abbrev pub empty_inline_keyboard : InlineKeyboardMarkup
empty_inline_keyboard = record { inline_keyboard = [] }

abbrev pub button : ConfigSession → String → String → InlineKeyboardButton
button session text action = record {
  text = text;
  callback_data = callback_data session.session_id action;
}

module _ {F W : Type 0} (providers : ProviderResolver F W) where
  unfoldable pub provider_enabled : MarketProvider → Bool
  provider_enabled provider = contains providers.enabled provider

  unfoldable pub single_provider : Option MarketProvider
  single_provider = elim providers.enabled [
    | [] ↦ none
    | provider ∷ others ↦ elim others [ [] ↦ some provider | other ∷ more ↦ none ]
  ]

  unfoldable pub provider_keyboard : ConfigSession → InlineKeyboardMarkup
  unfolding selected_text callback_data
  provider_keyboard session =
      let rows =
        map
          (λ provider.
            button session (selected_text (session.selected_provider == provider) provider)
              ("provider:" <> provider)
            ∷ [])
          providers.enabled in
      let controls = button session "Next" "next:symbols" ∷ button session "Cancel" "cancel" ∷ [] in
      record { inline_keyboard = rows ++ controls ∷ [] }

module _ {F W : Type 0} (providers : ProviderResolver F W) (symbols : List String)
    (intervals : List Interval) where
  unfoldable pub symbol_keyboard : ConfigSession → InlineKeyboardMarkup
  unfolding selected_text callback_data single_provider
  symbol_keyboard session =
      let rows =
        map
          (λ symbol.
            button session (selected_text (contains session.selected_symbols symbol) symbol)
              ("symbol:" <> symbol)
            ∷ [])
          (Selection.available_symbols providers symbols intervals session.selected_provider) in
      let back : List InlineKeyboardButton = elim (single_provider providers) [
        | none ↦ button session "Back" "back:providers" ∷ []
        | some provider ↦ []
      ] in
      let controls =
        back ++ button session "Next" "next:intervals" ∷ button session "Cancel" "cancel" ∷ [] in
      record { inline_keyboard = rows ++ controls ∷ [] }

  unfoldable pub interval_keyboard : ConfigSession → InlineKeyboardMarkup
  unfolding selected_text callback_data
  interval_keyboard session =
      let rows =
        map
          (λ interval.
            button session (selected_text (contains session.selected_intervals interval) interval)
              ("interval:" <> interval)
            ∷ [])
          (Selection.available_intervals providers symbols intervals session.selected_provider) in
      let controls =
        button session "Back" "back:symbols"
        ∷ button session "Save" "save"
        ∷ button session "Cancel" "cancel"
        ∷ [] in
      record { inline_keyboard = rows ++ controls ∷ [] }

-- ===== src/Chat/Telegram/Keyboard/Answers.antt =====
-- Every button of the keyboards of internal/chat/telegram/webhook.go has an answer.
use Prim.Native.String.{◌++◌ as ◌<>◌}
use text.Mathlib.TextLemmas.{append-eq-nil_iff}
use crypto_price_alert.Base.{
  String, ◌≡◌, ◌≢◌, string_eq, ok, List, [], ◌∷◌, ◌++◌, map, All, All-append, arith, refl,
  Option-cases, inl, inr, ==_differ,
}
use crypto_price_alert.Base.Text.Splitting.{Lacks, has_prefix-append}
use crypto_price_alert.Domain.Interval.{Interval}
use crypto_price_alert.Market.Provider.{ProviderResolver}
use crypto_price_alert.Chat.Session.{ConfigSession}
use crypto_price_alert.Chat.Telegram.Types.{InlineKeyboardButton, InlineKeyboardMarkup}
use crypto_price_alert.Chat.Telegram.Callback.{CallbackAction, parse_callback, read_action}
use crypto_price_alert.Chat.Telegram.Callback.RoundTrip.{parse_callback-callback_data}
use crypto_price_alert.Chat.Telegram.Keyboard.{
  button, symbol_keyboard, interval_keyboard, provider_keyboard, single_provider,
}

-- The data of a button are read back as the session and an action that the adapter knows.
pub record IsAnswered (session : ConfigSession) (b : InlineKeyboardButton) : Type 0 where
  pub action : String
  pub parsed : parse_callback b.callback_data ≡ ok (session.session_id, action)
  pub known : read_action action ≢ CallbackAction.unsupported

abbrev pub AllAnswered : ConfigSession → InlineKeyboardMarkup → Type 0
AllAnswered session markup = All (All (IsAnswered session)) markup.inline_keyboard

provider-known : (value : String) → read_action ("provider:" <> value) ≢ CallbackAction.unsupported
unfolding read_action
provider-known value = ground (arith, has_prefix-append "provider:" value)

symbol-known : (value : String) → read_action ("symbol:" <> value) ≢ CallbackAction.unsupported
unfolding read_action
symbol-known value = ground (arith, has_prefix-append "symbol:" value)

interval-known : (value : String) → read_action ("interval:" <> value) ≢ CallbackAction.unsupported
unfolding read_action
interval-known value = ground (arith, has_prefix-append "interval:" value)

symbol_label : ◌≢◌ {A = String} "symbol:" ""
unfolding string_eq
symbol_label = ==_differ refl

interval_label : ◌≢◌ {A = String} "interval:" ""
unfolding string_eq
interval_label = ==_differ refl

provider_label : ◌≢◌ {A = String} "provider:" ""
unfolding string_eq
provider_label = ==_differ refl

-- A text behind a label is not empty.
label-ne : (label value : String) → label ≢ "" → (label <> value) ≢ ""
label-ne label value n h = n ((append-eq-nil_iff {p = label} {q = value}).0 h).0

module _ (session : ConfigSession) (named : session.session_id ≢ "")
    (plain : Lacks 58 session.session_id) where
  button-IsAnswered :
      (text action : String)
      → action ≢ ""
      → read_action action ≢ CallbackAction.unsupported
      → IsAnswered session (button session text action)
  button-IsAnswered text action n k = record {
    action = action;
    parsed = parse_callback-callback_data session.session_id action plain named n;
    known = k;
  }

  -- One row for each value, with the value behind a label.
  rows-AllAnswered :
      (text : String → String) (label : String)
      → label ≢ ""
      → ((value : String) → read_action (label <> value) ≢ CallbackAction.unsupported)
      → (values : List String)
      → All
          (All (IsAnswered session))
          (map (λ value. button session (text value) (label <> value) ∷ []) values)
  rows-AllAnswered text label n k [] = tt
  rows-AllAnswered text label n k (value ∷ values) = (
    (button-IsAnswered (text value) (label <> value) (label-ne label value n) (k value), tt),
    rows-AllAnswered text label n k values,
  )

  with_controls :
      (rows : List (List InlineKeyboardButton)) (controls : List InlineKeyboardButton)
      → All (All (IsAnswered session)) rows
      → All (IsAnswered session) controls
      → AllAnswered session (record { inline_keyboard = rows ++ controls ∷ [] })
  with_controls rows controls h k =
      All-append (All (IsAnswered session)) rows (controls ∷ []) h (k, tt)

  back-IsAnswered : IsAnswered session (button session "Back" "back:providers")
  unfolding read_action string_eq
  back-IsAnswered = button-IsAnswered "Back" "back:providers" (==_differ refl) (ground arith)

  cancel-IsAnswered : IsAnswered session (button session "Cancel" "cancel")
  unfolding read_action string_eq
  cancel-IsAnswered = button-IsAnswered "Cancel" "cancel" (==_differ refl) (ground arith)

  next_intervals-IsAnswered : IsAnswered session (button session "Next" "next:intervals")
  unfolding read_action string_eq
  next_intervals-IsAnswered =
      button-IsAnswered "Next" "next:intervals" (==_differ refl) (ground arith)

  next_symbols-IsAnswered : IsAnswered session (button session "Next" "next:symbols")
  unfolding read_action string_eq
  next_symbols-IsAnswered = button-IsAnswered "Next" "next:symbols" (==_differ refl) (ground arith)

  back_symbols-IsAnswered : IsAnswered session (button session "Back" "back:symbols")
  unfolding read_action string_eq
  back_symbols-IsAnswered = button-IsAnswered "Back" "back:symbols" (==_differ refl) (ground arith)

  save-IsAnswered : IsAnswered session (button session "Save" "save")
  unfolding read_action string_eq
  save-IsAnswered = button-IsAnswered "Save" "save" (==_differ refl) (ground arith)

  module _ {F W : Type 0} (providers : ProviderResolver F W) (symbols : List String)
      (intervals : List Interval) where
    symbol_keyboard-AllAnswered :
        AllAnswered session (symbol_keyboard providers symbols intervals session)
    unfolding symbol_keyboard
    symbol_keyboard-AllAnswered =
        with_controls _ _ (rows-AllAnswered _ "symbol:" symbol_label symbol-known _)
          (elim (Option-cases (single_provider providers)) [
            | inl alone ↦
                rw alone (back-IsAnswered, (next_intervals-IsAnswered, (cancel-IsAnswered, tt)))
            | inr (provider, one) ↦ rw one (next_intervals-IsAnswered, (cancel-IsAnswered, tt))
          ])

    interval_keyboard-AllAnswered :
        AllAnswered session (interval_keyboard providers symbols intervals session)
    unfolding interval_keyboard
    interval_keyboard-AllAnswered =
        with_controls _ _ (rows-AllAnswered _ "interval:" interval_label interval-known _)
          (back_symbols-IsAnswered, (save-IsAnswered, (cancel-IsAnswered, tt)))

    provider_keyboard-AllAnswered : AllAnswered session (provider_keyboard providers session)
    unfolding provider_keyboard
    provider_keyboard-AllAnswered =
        with_controls _ _ (rows-AllAnswered _ "provider:" provider_label provider-known _)
          (next_symbols-IsAnswered, (cancel-IsAnswered, tt))

    -- If the identifier of a session is neither empty nor holds a colon, the data of every button
    -- of the three keyboards are read back as that session and an action that the adapter knows.
    pub keyboards-AllAnswered :
        AllAnswered session (symbol_keyboard providers symbols intervals session)
        × AllAnswered session (interval_keyboard providers symbols intervals session)
        × AllAnswered session (provider_keyboard providers session)
    keyboards-AllAnswered =
        (symbol_keyboard-AllAnswered, interval_keyboard-AllAnswered, provider_keyboard-AllAnswered)

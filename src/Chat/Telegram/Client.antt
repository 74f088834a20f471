-- ===== src/Chat/Telegram/Client.antt =====
-- internal/chat/telegram/client.go. The HTTP client and the readers of JSON are parameters.
use Prim.Native.String.{◌++◌ as ◌<>◌}
use crypto_price_alert.Base.{
  ℕ, String, Bool, false, ◌==◌, string_eq, not, ◌||◌, Option, none, some, List, [], ◌∷◌, failure,
  errorf, wrapped, Result, ok, err, fail_if, ltb, leb, if◌then◌else◌,
}
use crypto_price_alert.Base.Text.{trim_space, trim_code, decimal}
use crypto_price_alert.Base.Action.{Action, lift, ◌>>=◌, ◌>>◌}
use crypto_price_alert.Base.Dict.{Dict}
use crypto_price_alert.Chat.Adapter.{HttpClient}
use crypto_price_alert.Chat.Telegram.Types.{
  ChatMember, BotCommand, InlineKeyboardMarkup, ApiResponse,
}
use crypto_price_alert.Chat.Telegram.Callback.{bot_commands}

-- A value of a payload, which is a `map[string]any`.
pub data PayloadValue : Type 0 where
  number : ℕ → PayloadValue
  text : String → PayloadValue
  flag : Bool → PayloadValue
  commands : List BotCommand → PayloadValue
  keyboard : InlineKeyboardMarkup → PayloadValue

abbrev pub Payload : Type 0
Payload = Dict String PayloadValue

-- `json.Unmarshal` of an envelope and of the members of a chat.
pub record Decoder : Type 0 where
  pub envelope : String → Result ApiResponse
  pub chat_members : String → Result (List ChatMember)

pub record ApiClient (W : Type 0) : Type 0 where
  pub token : String
  pub base_url : String
  pub http : HttpClient Payload W
  pub decoder : Decoder

-- `NewAPIClient`
unfoldable pub new_api_client :
    {W : Type 0} → String → String → HttpClient Payload W → Decoder → Result (ApiClient W)
unfolding trim_space trim_code
new_api_client token base_url http decoder =
    if trim_space token == ""
    then err (failure "telegram bot token is required")
    else ok (record {
      token = token;
      base_url =
          trim_code 47 (if trim_space base_url == "" then "https://api.telegram.org" else base_url);
      http = http;
      decoder = decoder;
    })

-- `fmt.Errorf` with `%w` around the error of a call.
abbrev wrap : {A : Type 0} → String → Result A → Result A
wrap message (ok a) = ok a
wrap message (err e) = err (wrapped message e)

-- What stands in the payload if there is a keyboard.
abbrev reply_markup : Option InlineKeyboardMarkup → Payload
reply_markup none = []
reply_markup (some markup) = ("reply_markup", PayloadValue.keyboard markup) ∷ []

module _ {W : Type 0} (c : ApiClient W) where
  -- `call` with a result to read, which stays `absent` if there is none in the envelope.
  unfoldable pub call : {A : Type 0} → A → (String → Result A) → String → Payload → Action W A
  call absent read method payload = do
    body ← lift (c.http.marshal payload)
    let url = c.base_url <> "/bot" <> c.token <> "/" <> method
    lift (c.http.new_request url)
    response ←
        c.http.send
          (record { url = url; headers = ("Content-Type", "application/json") ∷ []; body = body })
    answer ← lift response.body
    lift (
        fail_if (ltb response.status_code 200 || leb 300 response.status_code)
          (errorf "telegram API %s: status %d" (method ∷ decimal response.status_code ∷ [])))
    envelope ← lift (wrap "decode telegram API %s: %w" (c.decoder.envelope answer))
    lift (
        fail_if (not envelope.is_ok)
          (errorf "telegram API %s: %s" (method ∷ envelope.description ∷ [])))
    lift (
        if envelope.result == ""
        then ok absent
        else wrap "decode telegram API result %s: %w" (read envelope.result))

  -- `call` without a result
  unfoldable pub call_only : String → Payload → Action W Unit
  unfolding call
  call_only method payload = call tt (λ result. ok tt) method payload

  unfoldable pub get_chat_administrators : ℕ → Action W (List ChatMember)
  unfolding call
  get_chat_administrators chat_id =
      call [] c.decoder.chat_members "getChatAdministrators"
        (("chat_id", PayloadValue.number chat_id) ∷ [])

  unfoldable pub set_my_commands : List BotCommand → Action W Unit
  unfolding call_only
  set_my_commands list = call_only "setMyCommands" (("commands", PayloadValue.commands list) ∷ [])

  unfoldable pub set_webhook : String → String → Action W Unit
  unfolding call_only trim_space
  set_webhook url secret_token = do
    lift (
        fail_if (trim_space url == "" || trim_space secret_token == "")
          (failure "Telegram webhook URL and secret token are required"))
    call_only "setWebhook"
        (("url", PayloadValue.text url) ∷ ("secret_token", PayloadValue.text secret_token) ∷ [])

  unfoldable pub register_default_commands : Action W Unit
  unfolding set_my_commands
  register_default_commands = set_my_commands bot_commands

  unfoldable pub send_message : ℕ → String → Option InlineKeyboardMarkup → Action W Unit
  unfolding call_only
  send_message chat_id message markup = call_only "sendMessage" (
      ("chat_id", PayloadValue.number chat_id)
      ∷ ("text", PayloadValue.text message)
      ∷ reply_markup markup)

  unfoldable pub edit_message_text : ℕ → ℕ → String → Option InlineKeyboardMarkup → Action W Unit
  unfolding call_only
  edit_message_text chat_id message_id message markup = call_only "editMessageText" (
      ("chat_id", PayloadValue.number chat_id)
      ∷ ("message_id", PayloadValue.number message_id)
      ∷ ("text", PayloadValue.text message)
      ∷ reply_markup markup)

  unfoldable pub answer_callback_query : String → String → Action W Unit
  unfolding call_only
  answer_callback_query callback_id message = call_only "answerCallbackQuery" (
      ("callback_query_id", PayloadValue.text callback_id)
      ∷ ("text", PayloadValue.text message)
      ∷ ("show_alert", PayloadValue.flag false)
      ∷ [])

-- ===== src/Tests/Telegrams.antt =====
-- A Telegram adapter in memory, and its theorems there. The user 7 is the creator of the chat.
use mathlib.Core.Bool.{false≢true}
use crypto_price_alert.Base.{
  ok?, ◌⊎◌, ℕ, ◌≡◌, ◌≢◌, ◌⊎◌, refl, String, Bool, true, false, ◌==◌, ==_differ, string_eq, nat_eq,
  not, none, some, List, [], ◌∷◌, contains, Distinct, Result, ok, arith, if◌then◌else◌, sym, ◌∙◌,
}
use crypto_price_alert.Base.Text.{decimal}
use crypto_price_alert.Domain.InboundEvent
use crypto_price_alert.Domain.Provider
use crypto_price_alert.Market.Provider.{static_resolver}
use crypto_price_alert.Repository.Targets.{inbound_event_repository, claim_inbound_event}
use crypto_price_alert.Chat.Service.{int64_text}
use crypto_price_alert.Chat.Adapter.{HttpClient}
use crypto_price_alert.Chat.Selection.{toggle}
use crypto_price_alert.Chat.Selection.Switching.{toggle-flips}
use crypto_price_alert.Chat.Telegram.Types.{User, Message, CallbackQuery, Update, ChatMember}
use crypto_price_alert.Chat.Telegram.Client.{Decoder, get_chat_administrators, send_message}
use crypto_price_alert.Chat.Telegram.Keyboard.{
  symbol_keyboard, interval_keyboard, provider_keyboard,
}
use crypto_price_alert.Chat.Telegram.Keyboard.Answers.{AllAnswered, keyboards-AllAnswered}
use crypto_price_alert.Chat.Telegram.Adapter.{Adapter}
use crypto_price_alert.Chat.Telegram.Buttons.{process_callback}
use crypto_price_alert.Chat.Telegram.Buttons.Authority.{IsRead, Pressed, process_callback-Pressed}
use crypto_price_alert.Chat.Telegram.Webhook.{
  WebhookRequest, webhook, claim_update, receive_update, finish_update, is_ignored,
}
use crypto_price_alert.Chat.Telegram.Webhook.Guards.{
  Authentic, webhook-Authentic, webhook-redelivered,
}
use crypto_price_alert.Tests.World.{target}
use crypto_price_alert.Tests.Chats.{session}
use crypto_price_alert.Tests.Databases.{event_database, event_database-UniqueEvents}

abbrev user : ℕ → User
user id = record { id = id; username = ""; first_name = "" }

abbrev message : Message
message = record {
  message_id = 1;
  sender = some (user 8);
  chat = record { id = 5; kind = "group"; title = "" };
  text = "/enable";
}

abbrev callback : CallbackQuery
callback = record {
  id = "c";
  sender = user 8;
  message = some message;
  payload = "crypto-alert:s:save";
}

abbrev pub http : {P W : Type 0} → HttpClient P W
http = record {
  marshal = λ payload. ok "{}";
  new_request = λ url. ok tt;
  send = λ request w. (ok (record { status_code = 200; body = ok "{}" }), w);
}

abbrev pub members : List ChatMember
members = record { user = user 7; status = "creator" } ∷ []

abbrev pub decoder : Decoder
decoder = record {
  envelope = λ body. ok (record { is_ok = true; description = ""; result = "[]" });
  chat_members = λ raw. ok members;
}

-- The world of the events is that of `event_database`.
abbrev adapter : Adapter ℕ Bool
adapter = record {
  client = record { token = "t"; base_url = "u"; http = http; decoder = decoder };
  targets = record {
    find_or_create_target = λ t w. (ok t, w);
    get_target = λ p tenant chat w. (ok (target chat), w);
    list_enabled_targets = λ w. (ok [], w);
    count_targets = λ w. (ok 0, w);
  };
  events = inbound_event_repository event_database;
  commands = record {
    handle = λ command w. (ok "done", w);
    update_session = λ command p xs is w. (ok tt, w);
  };
  sessions = record {
    create = λ s w. (ok tt, w);
    get = λ id w. (ok session, w);
    update = λ s w. (ok tt, w);
    delete = λ id w. (ok tt, w);
  };
  webhook_secret = "secret";
  tenant_id = "default";
  allowed_symbols = "BTC" ∷ [];
  allowed_intervals = "1h" ∷ [];
  providers = static_resolver none;
  host = record { new_id = λ w. ("id", w); now = λ w. (1, w); error_text = λ e. "error" };
}

process_callback-Pressed_example :
    ((ok? (process_callback adapter callback false).0 ≡ false)
      × IsRead adapter callback false (process_callback adapter callback false).1)
    ⊎ Pressed adapter callback false
process_callback-Pressed_example = process_callback-Pressed adapter callback false

abbrev update : Update
update = record { update_id = 3; message = some message; callback_query = none }

abbrev decode : String → Result Update
decode body = ok update

abbrev request : WebhookRequest
request = record { secret = "secret"; body = ok "{}" }

webhook-redelivered_example :
    ((webhook adapter decode request true).1 ≡ true)
    ⊎ ((webhook adapter decode request true).1 ≡ (claim_update adapter update true).1)
webhook-redelivered_example =
    webhook-redelivered adapter decode event_database (λ w p e. w) request "{}" update true refl
      event_database-UniqueEvents (λ v. refl) (λ v. refl) refl refl refl

session_named : ◌≢◌ {A = String} "s" ""
unfolding string_eq
session_named = ==_differ refl

keyboards-AllAnswered_example :
    AllAnswered session (symbol_keyboard adapter.providers ("BTC" ∷ []) ("1h" ∷ []) session)
    × AllAnswered session (interval_keyboard adapter.providers ("BTC" ∷ []) ("1h" ∷ []) session)
    × AllAnswered session (provider_keyboard adapter.providers session)
keyboards-AllAnswered_example =
    keyboards-AllAnswered session session_named (ground arith) adapter.providers ("BTC" ∷ [])
      ("1h" ∷ [])

two_differ : Distinct {A = String} ("BTC" ∷ "ETH" ∷ [])
unfolding string_eq
two_differ = (refl, (refl, tt))

toggle-flips_example :
    (contains (toggle {A = String} ("BTC" ∷ "ETH" ∷ []) "BTC") "ETH" ≡ (
      if ◌==◌ {A = String} "ETH" "BTC"
      then not (contains {A = String} ("BTC" ∷ "ETH" ∷ []) "ETH")
      else contains {A = String} ("BTC" ∷ "ETH" ∷ []) "ETH"))
    × Distinct (toggle {A = String} ("BTC" ∷ "ETH" ∷ []) "BTC")
toggle-flips_example = toggle-flips ("BTC" ∷ "ETH" ∷ []) "BTC" "ETH" two_differ

-- The claim leaves the row of the event.
changed : (webhook adapter decode request false).1 ≡ true
unfolding webhook receive_update claim_update finish_update is_ignored inbound_event_repository
    claim_inbound_event InboundEvent.validate Provider.validate_chat int64_text decimal string_eq
    nat_eq get_chat_administrators send_message
changed = refl

changes : (webhook adapter decode request false).1 ≢ false
changes kept = false≢true (sym kept ∙ changed)

webhook-Authentic_example : Authentic adapter decode request
webhook-Authentic_example = webhook-Authentic adapter decode request false changes

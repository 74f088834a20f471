-- ===== src/Tests/Slacks.antt =====
-- A Slack adapter in memory, and its theorems there. The user U7 is the creator of the channel.
use Prim.Native.String.{◌++◌ as ◌<>◌}
use crypto_price_alert.Base.{
  ℕ, ◌+◌, ◌*◌, ◌≡◌, ◌⊎◌, refl, String, Bool, true, false, string_eq, nat_eq, none, [], ◌∷◌, ok, ok?,
  arith,
}
use crypto_price_alert.Base.Text.{trim_space}
use crypto_price_alert.Base.Text.Integers.{parse_int}
use crypto_price_alert.Domain.InboundEvent
use crypto_price_alert.Domain.Provider
use crypto_price_alert.Domain.Interval.{unix_epoch, second}
use crypto_price_alert.Market.Provider.{static_resolver}
use crypto_price_alert.Repository.Targets.{inbound_event_repository, claim_inbound_event}
use crypto_price_alert.Chat.Slack.Types.{Interaction}
use crypto_price_alert.Chat.Slack.Signature.{verify_signature, is_stale}
use crypto_price_alert.Chat.Slack.Signature.Replay.{verify_signature-replayed}
use crypto_price_alert.Chat.Slack.Blocks.{configuration_blocks}
use crypto_price_alert.Chat.Slack.Blocks.Answers.{AllAnswered, configuration_blocks-AllAnswered}
use crypto_price_alert.Chat.Slack.Adapter.{Adapter, validate_context}
use crypto_price_alert.Chat.Slack.Controls.Authority.{OnlyAnswered, Used, process_interaction-Used}
use crypto_price_alert.Chat.Slack.Webhook.{
  Codec, WebhookRequest, slash_command_webhook, slash_values, with_values, verified, receive_slash,
  interaction_webhook, interaction_values, receive_interaction, interaction_message, slash_command,
  slash_message, trigger_or_new, claim_and_process, claim_event, acknowledge,
}
use crypto_price_alert.Chat.Slack.Webhook.Claims.{starts}
use crypto_price_alert.Chat.Slack.Webhook.Admission.{
  SlashStarted, InteractionStarted, slash_command_webhook-SlashStarted,
  interaction_webhook-InteractionStarted,
}
use crypto_price_alert.Tests.World.{target}
use crypto_price_alert.Tests.Chats.{session}
use crypto_price_alert.Tests.Databases.{event_database}
use crypto_price_alert.Tests.Telegrams.{http}

abbrev mac : String → String → String
mac secret message = secret <> message

abbrev instant : ℕ
instant = (unix_epoch + 100) * second

abbrev adapter : Adapter ℕ Bool
adapter = record {
  client = record {
    token = "t";
    base_url = "u";
    http = http;
    decode = λ body.
        ok (record { is_ok = true; error = ""; channel = record { id = "C"; creator = "U7" } });
  };
  targets = record {
    find_or_create_target = λ t w. (ok t, w);
    get_target = λ p tenant chat w. (ok (target chat), w);
    list_enabled_targets = λ w. (ok [], w);
    count_targets = λ w. (ok 0, w);
  };
  events = inbound_event_repository event_database;
  commands = record {
    handle = λ command w. (ok "done", w);
    update_session = λ command p xs is w. (ok tt, w);
  };
  sessions = record {
    create = λ s w. (ok tt, w);
    get = λ id w. (ok session, w);
    update = λ s w. (ok tt, w);
    delete = λ id w. (ok tt, w);
  };
  signing_secret = "k";
  tenant_id = "default";
  expected_app_id = "";
  expected_team_id = "";
  symbols = "BTC" ∷ [];
  intervals = "1h" ∷ [];
  providers = static_resolver none;
  replay_window = 300 * second;
  host = record { new_id = λ w. ("id", w); now = λ w. (instant, w); error_text = λ e. "error" };
}

passed : verify_signature mac "k" "100" "v0=kv0:100:{}" "{}" instant (300 * second) ≡ ok tt
unfolding verify_signature is_stale parse_int trim_space string_eq nat_eq
passed = refl

verify_signature-replayed_example :
    (◌≡◌ {A = String} "v0=kv0:100:{}" ("v0=" <> mac "k" ("v0:" <> "100" <> ":" <> "{}")))
    × (ok? (verify_signature mac "k" "100" "other" "body" (instant + 601 * second) (300 * second))
        ≡ false)
verify_signature-replayed_example =
    verify_signature-replayed mac "k" "100" "v0=kv0:100:{}" "{}" instant (300 * second) "other"
      "body" (instant + 601 * second) passed (omega arith)

abbrev interaction : Interaction
interaction = record {
  kind = "block_actions";
  api_app_id = "";
  team = record { id = "" };
  user = record { id = "U8" };
  channel = record { id = "C"; name = "" };
  actions = [];
  response_url = "https://hooks";
  trigger_id = "x";
}

process_interaction-Used_example :
    OnlyAnswered adapter interaction false ⊎ Used adapter interaction false
process_interaction-Used_example = process_interaction-Used adapter interaction false

configuration_blocks-AllAnswered_example :
    AllAnswered adapter "s" (configuration_blocks "s" ("binance" ∷ []) ("BTC" ∷ []) ("1h" ∷ []))
configuration_blocks-AllAnswered_example =
    configuration_blocks-AllAnswered "s" (ground arith) adapter ("binance" ∷ []) ("BTC" ∷ [])
      ("1h" ∷ [])

abbrev codec : Codec
codec = record {
  mac = mac;
  parse_query = λ body. ok (λ key. "v");
  decode = λ payload. ok interaction;
}

abbrev request : WebhookRequest
request = record { timestamp = "100"; signature = "v0=kv0:100:{}"; body = ok "{}" }

starts_task : starts (slash_command_webhook adapter codec request false) ≡ true
unfolding slash_command_webhook with_values verified slash_values slash_command receive_slash
    validate_context trigger_or_new slash_message claim_and_process claim_event acknowledge
    inbound_event_repository claim_inbound_event InboundEvent.validate Provider.validate_chat
    verify_signature is_stale parse_int trim_space string_eq nat_eq
starts_task = refl

slash_command_webhook-SlashStarted_example : SlashStarted adapter codec request false
slash_command_webhook-SlashStarted_example =
    slash_command_webhook-SlashStarted adapter codec request false starts_task

press_starts_task : starts (interaction_webhook adapter codec request false) ≡ true
unfolding interaction_webhook with_values verified interaction_values receive_interaction
    validate_context trigger_or_new interaction_message claim_and_process claim_event acknowledge
    inbound_event_repository claim_inbound_event InboundEvent.validate Provider.validate_chat
    verify_signature is_stale parse_int trim_space string_eq nat_eq
press_starts_task = refl

interaction_webhook-InteractionStarted_example : InteractionStarted adapter codec request false
interaction_webhook-InteractionStarted_example =
    interaction_webhook-InteractionStarted adapter codec request false press_starts_task

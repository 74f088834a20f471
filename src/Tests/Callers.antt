-- ===== src/Tests/Callers.antt =====
-- The HTTP interface and the start of the program in memory, and their theorems there.
use mathlib.Core.Path.{subst}
use crypto_price_alert.Base.{
  ℕ, ◌≡◌, ◌≢◌, refl, String, true, false, string_eq, nat_eq, ==_differ, none, some, [], ◌∷◌, ok,
  Bool-cases, inl, inr, ok_injective, err≢ok, ◌==◌, ◌*◌,
}
use crypto_price_alert.Base.Text.{
  trim_space, to_lower, to_upper, fields, trim_prefix, trim_code, cut, decimal,
}
use crypto_price_alert.Base.Dict.{lookup}
use crypto_price_alert.Domain.Interval
use crypto_price_alert.Domain.Interval.{minute}
use crypto_price_alert.Market.Provider.{MarketDataProvider, static_resolver, static_get}
use crypto_price_alert.Config.Settings.{Config}
use crypto_price_alert.Notification.Channels.{Channel}
use crypto_price_alert.Service.Configuration.{new_service, symbol_set, interval_set}
use crypto_price_alert.Service.Configuration.Validator.{normalize_symbol}
use crypto_price_alert.Chat.Command.{is_mutation, authorize_creator}
use crypto_price_alert.Chat.Parser.{parse_command, parse_fields, action_of, strip_bot_suffix}
use crypto_price_alert.Chat.Service
use crypto_price_alert.Chat.Service.{int64_text}
use crypto_price_alert.Chat.Telegram.Types.{Message}
use crypto_price_alert.Chat.Telegram.Client.{send_message, new_api_client}
use crypto_price_alert.Chat.Telegram.Adapter.{Adapter, answer_message, user_id_string, new_adapter}
use crypto_price_alert.Api.Handler.{Handler, RunAlertRequest, run_alert}
use crypto_price_alert.Api.Handler.Silence.{Quiet, AsksDry, sends-run_alert}
use crypto_price_alert.Config.Check.{normal_name}
use crypto_price_alert.Repository.Ports.{CleanupRepository}
use crypto_price_alert.Server.Schedules.{Foundation}
use crypto_price_alert.Server.Schedules.Start.{Running, validate-Running}
use crypto_price_alert.Server.Chats.{
  Backend, configuration_port, new_telegram_chat_handler, new_chat_service, command_port,
}
use crypto_price_alert.Server.Chats.Authority.{telegram_handler-outsider}
use crypto_price_alert.Tests.World.{
  World, start, host, floats, jobs, utc, market, targets, target, configs, engine,
}
use crypto_price_alert.Tests.Chats.{session}
use crypto_price_alert.Tests.Markets.{load, settings, accepted}
use crypto_price_alert.Tests.Runs.{service}
use crypto_price_alert.Tests.Telegrams.{http, decoder}

abbrev handler : Handler ℕ World
handler = record {
  alerts = some service;
  periods = some engine;
  parse_time = λ text. ok 1;
  now = host.now;
  error_text = λ e. "error";
}

abbrev request : RunAlertRequest
request = record {
  provider = "";
  interval = "1h";
  symbols = [];
  at = "";
  period_start = "";
  period_end = "";
  dry_run = none;
}

resolved :
    (name : String) (p : MarketDataProvider ℕ World)
    → service.providers.get name ≡ ok p
    → market ≡ p
unfolding static_resolver static_get
resolved name p h = elim (Bool-cases (name == "binance")) [
  | inl same ↦ ok_injective (rw same at h)
  | inr differ ↦ absurd (err≢ok (rw differ at h))
]

quiet : Quiet handler service (λ w. w.log)
quiet = record {
  provider = λ name p symbol interval from to w h.
      subst (λ q. (q symbol interval from to w).1.log ≡ w.log) (resolved name p h) refl;
  clock = λ w. refl;
}

dry : AsksDry request (λ key. "true")
dry = AsksDry.as_true refl refl

sends-run_alert_example : (run_alert handler (ok request) (λ key. "true") start).1.log ≡ start.log
sends-run_alert_example =
    sends-run_alert handler service (λ w. w.log) quiet request (λ key. "true") start refl dry

abbrev channel : Channel World
channel = record {
  connect = λ url headers payload. record {
    request = ok tt;
    send = λ w. (ok (record { status_code = 200; body = ok "" }), w);
    wait = λ d w. (ok tt, w);
  };
  sleep = λ d w. w;
  decode = λ body. record { decoded = true; is_ok = true; error = "" };
}

abbrev foundation : Foundation ℕ World
foundation = record {
  floats = floats;
  host = host;
  location = utc;
  jobs = jobs;
  targets = targets;
  configs = configs;
  registry = static_resolver (some market);
  provider = market;
}

abbrev stale : CleanupRepository World
stale = record { delete_updated_before = λ cutoff limit w. (ok 0, w) }

spelled : normal_name "1m" ≡ "1m"
unfolding normal_name to_lower trim_space
spelled = refl

validate-Running_example : Running foundation channel stale (settings "binance")
validate-Running_example =
    validate-Running foundation channel stale load (settings "binance") accepted spelled

abbrev chat_settings : Config
chat_settings = record (settings "binance") {
  chat = record {
    enabled = true;
    max_symbols_per_target = 5;
    max_targets = 5;
    webhook_base_url = "https://host";
    telegram = record {
      enabled = true;
      bot_token = "token";
      webhook_secret = "secret";
      skip_webhook_registration = false;
    };
    slack = record {
      enabled = false;
      signing_secret = "";
      bot_token = "";
      app_id = "";
      team_id = "";
    };
  };
}

abbrev backend : Backend ℕ World
backend = record {
  targets = targets;
  configs = configs;
  events = record {
    claim_inbound_event = λ event w. (ok true, w);
    mark_processed = λ p id time w. (ok tt, w);
    mark_failed_event = λ p id reason w. (ok tt, w);
  };
  providers = static_resolver (some market);
  sessions = record {
    create = λ s w. (ok tt, w);
    get = λ id w. (ok session, w);
    update = λ s w. (ok tt, w);
    delete = λ id w. (ok tt, w);
  };
  host = host;
}

abbrev adapter : Adapter ℕ World
adapter = record {
  client = record {
    token = "token";
    base_url = "https://api.telegram.org";
    http = http;
    decoder = decoder;
  };
  targets = targets;
  events = backend.events;
  commands = command_port (record {
    configuration = configuration_port (record {
      targets = targets;
      configs = configs;
      default_symbols = "BTC" ∷ [];
      default_intervals = "1h" ∷ [];
      allowed_symbols = "BTC" ∷ [];
      allowed_intervals = "1h" ∷ [];
      max_symbols = 5;
      max_targets = 5;
      providers = static_resolver (some market);
      default_provider = "binance";
    });
    authorize = authorize_creator;
    sessions = backend.sessions;
    session_ttl = 15 * minute;
    host = host;
  });
  sessions = backend.sessions;
  webhook_secret = "secret";
  tenant_id = "default";
  allowed_symbols = "BTC" ∷ [];
  allowed_intervals = "1h" ∷ [];
  providers = static_resolver (some market);
  host = host;
}

wired : new_telegram_chat_handler chat_settings backend http decoder ≡ ok adapter
unfolding new_telegram_chat_handler new_chat_service Service.new_service new_service symbol_set
    interval_set normalize_symbol static_resolver static_get Interval.validate new_api_client
    new_adapter trim_space trim_code to_upper string_eq nat_eq
wired = refl

abbrev message : Message
message = record {
  message_id = 1;
  sender = none;
  chat = record { id = 5; kind = "group"; title = "" };
  text = "/pause";
}

parsed : parse_command "/pause" ≡ ok ("pause", [])
unfolding parse_command parse_fields action_of strip_bot_suffix lookup fields trim_prefix trim_space
    to_lower cut string_eq
parsed = refl

mutation : is_mutation "pause" ≡ true
unfolding is_mutation string_eq
mutation = refl

stranger : ◌≢◌ {A = String} (user_id_string 8) "7"
unfolding user_id_string int64_text decimal string_eq
stranger = ==_differ refl

telegram_handler-outsider_example :
    answer_message adapter 3 message
      (record { id = 8; username = ""; first_name = "" })
      (target "a")
      start
    ≡ send_message adapter.client 5 "Unable to process the request." none start
telegram_handler-outsider_example =
    telegram_handler-outsider chat_settings backend http decoder adapter 3 message
      (record { id = 8; username = ""; first_name = "" }) (target "a") "pause" [] start wired parsed
      mutation stranger

-- ===== src/Tests/Markets.antt =====
-- A registry of market providers and a configuration file, and their theorems there.
use crypto_price_alert.Base.{
  ℕ, ◌≡◌, refl, String, true, false, string_eq, nat_eq, some, [], ◌∷◌, Result, ok, ok?,
}
use crypto_price_alert.Base.Dict.{lookup, insert, erase}
use crypto_price_alert.Base.Text.{trim_space, to_upper, to_lower}
use crypto_price_alert.Domain.Interval
use crypto_price_alert.Domain.Interval.{second}
use crypto_price_alert.Domain.Location.{Location}
use crypto_price_alert.Domain.Provider
use crypto_price_alert.Market.Registry
use crypto_price_alert.Market.Registry.{
  Constructors, ProviderRegistry, new_provider_registry, construct, register_all, canonical_of,
  own_symbols, mapped_symbols, registry_resolver, supports, canonical_symbol,
}
use crypto_price_alert.Market.Registry.Membership.{get-valid}
use crypto_price_alert.Config.Settings.{ProviderSymbolConfig, ProviderConfig, MarketConfig, Config}
use crypto_price_alert.Config.Check.{
  check_app, check_market, check_symbols, check_intervals, check_providers, check_mappings,
  check_mapping, check_unit, check_default, check_schedule, check_clock, check_notifications,
  check_limits, check_chat, normal_name, normal_symbol, blank, validate,
}
use crypto_price_alert.Config.Accepted.{IsMarket, validate-IsMarket}
use crypto_price_alert.Scheduler.Clock.{parse_clock}
use crypto_price_alert.Service.Configuration.{Configuration, new_service}
use crypto_price_alert.Service.Configuration.Validity.{IsSound}
use crypto_price_alert.Service.Configuration.Soundness.{new_service_registry-IsSound}
use crypto_price_alert.Tests.World.{World, market, targets, configs, utc}

abbrev new : Constructors ℕ World
new = record {
  new_binance = λ url mappings. ok market;
  new_coin_market_cap = λ url key unit mappings. ok market;
}

abbrev mapping : ProviderSymbolConfig
mapping = record { symbol = "BTCUSDT"; platform = ""; address = "" }

abbrev binance_config : ProviderConfig
binance_config = record {
  enabled = true;
  base_url = "";
  api_key = "";
  unit = "";
  symbols = ("BTC", mapping) ∷ [];
}

abbrev market_config : String → MarketConfig
market_config default = record {
  default_provider = default;
  symbols = "BTC" ∷ [];
  intervals = "1h" ∷ [];
  providers = ("binance", binance_config) ∷ [];
}

abbrev registry : ProviderRegistry ℕ World
registry = record {
  providers = ("binance", market) ∷ [];
  capabilities = ("binance", record { symbols = "BTC" ∷ []; intervals = "1h" ∷ [] }) ∷ [];
  canonical_symbols = ("binance", ("BTCUSDT", "BTC") ∷ ("BTC", "BTC") ∷ []) ∷ [];
  default_provider = "binance";
}

made : new_provider_registry new (market_config "binance") ≡ ok registry
unfolding new_provider_registry register_all construct canonical_of own_symbols mapped_symbols
    lookup insert erase Registry.normalize_symbol to_upper trim_space string_eq
made = refl

resolved : ok? (Registry.get registry "binance") ≡ true
unfolding Registry.get lookup string_eq
resolved = refl

supported : supports registry "binance" "BTC" "1h" ≡ true
unfolding supports lookup string_eq
supported = refl

-- A provider's symbol becomes the symbol of the configuration.
canonical : canonical_symbol registry "binance" " btcusdt" ≡ some "BTC"
unfolding canonical_symbol Registry.normalize_symbol lookup to_upper trim_space string_eq
canonical = refl

get-valid_example :
    (Provider.validate "binance" ≡ ok tt) × (ok? (Registry.get registry "binance") ≡ true)
get-valid_example = get-valid new (market_config "binance") registry made "binance" resolved

abbrev service : Configuration ℕ World
service = record {
  targets = targets;
  configs = configs;
  default_symbols = "btc" ∷ [];
  default_intervals = "1h" ∷ [];
  allowed_symbols = "BTC" ∷ [];
  allowed_intervals = "1h" ∷ [];
  max_symbols = 1;
  max_targets = 1;
  providers = registry_resolver registry;
  default_provider = "binance";
}

started :
    new_service targets configs ("btc" ∷ []) ("1h" ∷ []) 1 1 (registry_resolver registry) "binance"
    ≡ ok service
unfolding new_service registry_resolver Registry.get lookup Interval.validate string_eq to_upper
    trim_space
started = refl

new_service_registry-IsSound_example : IsSound service
new_service_registry-IsSound_example =
    new_service_registry-IsSound new (market_config "binance") registry targets configs ("btc" ∷ [])
      ("1h" ∷ []) 1 1 "binance" service made started

abbrev pub load : String → Result Location
load name = ok utc

abbrev pub settings : String → Config
settings default = record {
  app = record { timezone = "UTC"; http_address = ":8080" };
  database = record { url = "postgres://"; notification_jobs_retention = 0 };
  market = market_config default;
  schedule = record { active_from = "06:00"; active_until = "23:00"; tick_interval = "1m" };
  notifications = record {
    dry = true;
    telegram = record { enabled = false; bot_token = ""; chat_id = "" };
    slack = record { enabled = true; webhook_url = "https://" };
  };
  chat = record {
    enabled = false;
    max_symbols_per_target = 0;
    max_targets = 0;
    webhook_base_url = "";
    telegram = record {
      enabled = false;
      bot_token = "";
      webhook_secret = "";
      skip_webhook_registration = false;
    };
    slack = record {
      enabled = false;
      signing_secret = "";
      bot_token = "";
      app_id = "";
      team_id = "";
    };
  };
  max_attempts = 1;
  initial_backoff = second;
  market_requests = 1;
}

pub accepted : validate load (settings "binance") ≡ ok tt
unfolding validate check_app check_market check_symbols check_intervals check_providers
    check_mappings check_mapping check_unit check_default check_schedule check_clock
    check_notifications check_limits check_chat normal_name normal_symbol blank Interval.validate
    Provider.validate lookup to_upper to_lower trim_space parse_clock string_eq nat_eq
accepted = refl

-- The validation reads the name of the default provider in lower case, the registry as it stands.
accepted_upper : validate load (settings "BINANCE") ≡ ok tt
unfolding validate check_app check_market check_symbols check_intervals check_providers
    check_mappings check_mapping check_unit check_default check_schedule check_clock
    check_notifications check_limits check_chat normal_name normal_symbol blank Interval.validate
    Provider.validate lookup to_upper to_lower trim_space parse_clock string_eq nat_eq
accepted_upper = refl

refused_upper : ok? (new_provider_registry new (market_config "BINANCE")) ≡ false
unfolding new_provider_registry register_all construct canonical_of own_symbols mapped_symbols
    lookup insert erase Registry.normalize_symbol to_upper trim_space string_eq
refused_upper = refl

validate-IsMarket_example : IsMarket (market_config "binance")
validate-IsMarket_example = validate-IsMarket load (settings "binance") accepted

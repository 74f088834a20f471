-- ===== src/Config/Settings.antt =====
-- The types of internal/config/config.go. A duration that may be negative is a 64-bit pattern.
use crypto_price_alert.Base.{ℕ, String, Bool, List}
use crypto_price_alert.Base.Dict.{Dict}
use crypto_price_alert.Domain.Interval.{Duration}
use crypto_price_alert.Domain.Provider.{MarketProvider}

-- `AppConfig` with its `HTTPConfig`
pub record AppConfig : Type 0 where
  pub timezone : String
  pub http_address : String

pub record DatabaseConfig : Type 0 where
  pub url : String
  pub notification_jobs_retention : ℕ

pub record ProviderSymbolConfig : Type 0 where
  pub symbol : String
  pub platform : String
  pub address : String

pub record ProviderConfig : Type 0 where
  pub enabled : Bool
  pub base_url : String
  pub api_key : String
  pub unit : String
  pub symbols : Dict String ProviderSymbolConfig

pub record MarketConfig : Type 0 where
  pub default_provider : MarketProvider
  pub symbols : List String
  pub intervals : List String
  pub providers : Dict MarketProvider ProviderConfig

pub record ScheduleConfig : Type 0 where
  pub active_from : String
  pub active_until : String
  pub tick_interval : String

pub record TelegramConfig : Type 0 where
  pub enabled : Bool
  pub bot_token : String
  pub chat_id : String

pub record SlackConfig : Type 0 where
  pub enabled : Bool
  pub webhook_url : String

pub record NotificationsConfig : Type 0 where
  pub dry : Bool
  pub telegram : TelegramConfig
  pub slack : SlackConfig

pub record ChatTelegramConfig : Type 0 where
  pub enabled : Bool
  pub bot_token : String
  pub webhook_secret : String
  pub skip_webhook_registration : Bool

pub record ChatSlackConfig : Type 0 where
  pub enabled : Bool
  pub signing_secret : String
  pub bot_token : String
  pub app_id : String
  pub team_id : String

pub record ChatConfig : Type 0 where
  pub enabled : Bool
  pub max_symbols_per_target : ℕ
  pub max_targets : ℕ
  pub webhook_base_url : String
  pub telegram : ChatTelegramConfig
  pub slack : ChatSlackConfig

-- `RetryConfig` and `ConcurrencyConfig` are the last three fields.
pub record Config : Type 0 where
  pub app : AppConfig
  pub database : DatabaseConfig
  pub market : MarketConfig
  pub schedule : ScheduleConfig
  pub notifications : NotificationsConfig
  pub chat : ChatConfig
  pub max_attempts : ℕ
  pub initial_backoff : Duration
  pub market_requests : ℕ

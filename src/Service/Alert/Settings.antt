-- ===== src/Service/Alert/Settings.antt =====
-- The fields and the reports of `AlertService` in internal/service/alert.go, and its constructors.
use crypto_price_alert.Base.{
  String, Bool, ◌==◌, nat_eq, string_eq, not, ◌&&◌, ◌||◌, Option, none, some, List, failure, Result,
  ok, err, length, empty?, if◌then◌else◌,
}
use crypto_price_alert.Base.Dict.{Dict}
use crypto_price_alert.Domain.Interval.{Interval, Time}
use crypto_price_alert.Domain.Location.{Location}
use crypto_price_alert.Domain.Provider
use crypto_price_alert.Domain.Provider.{MarketProvider}
use crypto_price_alert.Domain.Candle.{Floats}
use crypto_price_alert.Market.Provider.{MarketDataProvider, ProviderResolver, static_resolver}
use crypto_price_alert.Notification.Notifier.{Notifier}
use crypto_price_alert.Repository.Ports.{Host}

pub record SymbolResult (F : Type 0) : Type 0 where
  pub symbol : String
  pub open_price : F
  pub close : F
  pub change_pct : F
  pub volume : F
  pub unavailable : Bool
  pub error : String

-- `sent` is `none` where the source leaves the map nil.
pub record RunResult (F : Type 0) : Type 0 where
  pub interval : Interval
  pub period_start : Time
  pub period_end : Time
  pub results : List (SymbolResult F)
  pub message_preview : String
  pub dry_run : Bool
  pub sent : Option (Dict String String)

-- The fields of an `AlertService`, with the operations that its calls reach.
pub record AlertService (F W : Type 0) : Type 0 where
  pub floats : Floats F
  pub host : Host W
  pub providers : ProviderResolver F W
  pub default_provider : MarketProvider
  pub notifiers : List (Notifier W)
  pub notifier_names : List String
  pub default_symbols : List String
  pub location : Option Location

abbrev names_mismatch : {A : Type 0} → List String → List A → Bool
names_mismatch names notifiers = not (empty? names) && not (length names == length notifiers)

module _ {F W : Type 0} (floats : Floats F) (host : Host W) where
  -- `NewAlertServiceWithRegistry`
  unfoldable pub new_alert_service_with_registry :
      Option (ProviderResolver F W)
      → List (Notifier W)
      → List String
      → List String
      → MarketProvider
      → Option Location
      → Result (AlertService F W)
  new_alert_service_with_registry none notifiers names symbols default location =
      err (failure "invalid alert service settings")
  new_alert_service_with_registry (some providers) notifiers names symbols default none =
      err (failure "invalid alert service settings")
  new_alert_service_with_registry (some providers) notifiers names symbols default (some location) =
      if empty? notifiers || empty? symbols
      then err (failure "invalid alert service settings")
      else (elim (Provider.validate default) [
        | err e ↦ err e
        | ok valid ↦
            if names_mismatch names notifiers
            then err (failure "notifier names length must match notifiers")
            else ok (record {
              floats = floats;
              host = host;
              providers = providers;
              default_provider = default;
              notifiers = notifiers;
              notifier_names = names;
              default_symbols = symbols;
              location = some location;
            })
      ])

  -- `NewAlertService`; its default provider is a valid one, so that its checks are those above.
  unfoldable pub new_alert_service :
      Option (MarketDataProvider F W)
      → List (Notifier W)
      → List String
      → List String
      → Option Location
      → Result (AlertService F W)
  unfolding new_alert_service_with_registry
  new_alert_service none notifiers names symbols location =
      err (failure "invalid alert service settings")
  new_alert_service (some provider) notifiers names symbols location =
      new_alert_service_with_registry (some (static_resolver (some provider))) notifiers names
        symbols Provider.binance location

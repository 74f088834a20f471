-- ===== src/Tests/Services.antt =====
-- A configuration service over the static resolver, and the theorems of the service there.
use crypto_price_alert.Base.{
  ℕ, ◌≡◌, ◌≤◌, refl, String, true, false, ◌==◌, string_eq, nat_eq, some, [], ◌∷◌, map, ok, ok?,
  arith, length,
}
use crypto_price_alert.Base.Text.{trim_space, to_upper}
use crypto_price_alert.Domain.Interval
use crypto_price_alert.Domain.Provider
use crypto_price_alert.Domain.AlertConfig
use crypto_price_alert.Domain.AlertConfig.{AlertConfig}
use crypto_price_alert.Market.Provider.{ProviderResolver, static_resolver}
use crypto_price_alert.Service.Configuration.{Configuration, new_service, checked_config}
use crypto_price_alert.Service.Configuration.Validator.{
  normalize_symbol, validate_symbols, validate_intervals,
}
use crypto_price_alert.Service.Configuration.Acceptance.{
  Accepted, validate_symbols-Accepted, validate_intervals-Accepted,
}
use crypto_price_alert.Service.Configuration.Validity.{checked_config-valid}
use crypto_price_alert.Service.Configuration.Soundness.{new_service-IsSound}
use crypto_price_alert.Tests.World.{World, market, targets, configs}

abbrev resolver : ProviderResolver ℕ World
resolver = static_resolver (some market)

abbrev service : Configuration ℕ World
service = record {
  targets = targets;
  configs = configs;
  default_symbols = "btc" ∷ " ETH" ∷ [];
  default_intervals = "5m" ∷ "1h" ∷ [];
  allowed_symbols = "BTC" ∷ "ETH" ∷ [];
  allowed_intervals = "5m" ∷ "1h" ∷ [];
  max_symbols = 2;
  max_targets = 1;
  providers = resolver;
  default_provider = "binance";
}

started :
    new_service targets configs ("btc" ∷ " ETH" ∷ []) ("5m" ∷ "1h" ∷ []) 2 1 resolver "binance"
    ≡ ok service
unfolding new_service static_resolver Interval.validate string_eq to_upper trim_space
started = refl

known : (p : String) → ok? (resolver.get p) ≡ true → Provider.validate p ≡ ok tt
unfolding static_resolver Provider.validate
known p h = ground arith

abbrev accepted : AlertConfig
accepted = record {
  target_id = "a";
  market_provider = "binance";
  enabled = true;
  symbols = "ETH" ∷ "BTC" ∷ [];
  intervals = "1h" ∷ [];
  version = 3;
  updated_by = "7";
  updated_at = 0;
}

-- A provider that is not enabled is replaced by the default one.
checked :
    checked_config service "a" "coinmarketcap" ("eth " ∷ "BTC" ∷ []) ("1h" ∷ []) true " 7" 3
    ≡ ok accepted
unfolding checked_config static_resolver validate_symbols validate_intervals string_eq nat_eq
    normalize_symbol to_upper trim_space
checked = refl

named : (◌==◌ {A = String} "a" "") ≡ false
unfolding string_eq
named = refl

checked_config-valid_example : AlertConfig.validate accepted ≡ ok tt
checked_config-valid_example =
    checked_config-valid service
      (new_service-IsSound targets configs ("btc" ∷ " ETH" ∷ []) ("5m" ∷ "1h" ∷ []) 2 1 resolver
        "binance" service started known)
      "a" "coinmarketcap" ("eth " ∷ "BTC" ∷ []) ("1h" ∷ []) true " 7" 3 accepted checked named refl

symbols_pass :
    validate_symbols ("BTC" ∷ "ETH" ∷ []) 2 ("eth " ∷ "BTC" ∷ []) ≡ ok ("ETH" ∷ "BTC" ∷ [])
unfolding validate_symbols string_eq normalize_symbol to_upper trim_space
symbols_pass = refl

validate_symbols-Accepted_example :
    Accepted ("BTC" ∷ "ETH" ∷ []) (map normalize_symbol ("eth " ∷ "BTC" ∷ [])) ("ETH" ∷ "BTC" ∷ [])
    × ((1 ≤ length {A = String} ("ETH" ∷ "BTC" ∷ []))
        × (length {A = String} ("ETH" ∷ "BTC" ∷ []) ≤ 2))
validate_symbols-Accepted_example =
    validate_symbols-Accepted ("BTC" ∷ "ETH" ∷ []) 2 ("eth " ∷ "BTC" ∷ []) ("ETH" ∷ "BTC" ∷ [])
      symbols_pass

intervals_pass : validate_intervals ("5m" ∷ "1h" ∷ []) ("1h" ∷ []) ≡ ok ("1h" ∷ [])
unfolding validate_intervals string_eq
intervals_pass = refl

validate_intervals-Accepted_example :
    Accepted ("5m" ∷ "1h" ∷ []) ("1h" ∷ []) ("1h" ∷ []) × (1 ≤ length {A = String} ("1h" ∷ []))
validate_intervals-Accepted_example =
    validate_intervals-Accepted ("5m" ∷ "1h" ∷ []) ("1h" ∷ []) ("1h" ∷ []) intervals_pass

-- ===== src/Market/Provider.antt =====
-- internal/market/provider.go: the interfaces of the market data, and the static resolver.
use crypto_price_alert.Base.{
  String, Bool, false, ◌==◌, string_eq, not, Option, none, some, List, [], ◌∷◌, failure, errorf,
  Result, ok, err, if◌then◌else◌,
}
use crypto_price_alert.Domain.Interval.{Interval, Time}
use crypto_price_alert.Domain.Provider.{MarketProvider, binance}
use crypto_price_alert.Domain.Candle.{Candle}

-- `GetKline`, which may change the world `W`: symbol, interval, start and end of the candle.
abbrev pub MarketDataProvider : Type 0 → Type 0 → Type 0
MarketDataProvider F W = String → Interval → Time → Time → W → Result (Candle F) × W

-- `ProviderResolver`; `canonical_symbol` is there if the resolver is a `SymbolCanonicalizer`.
pub record ProviderResolver (F W : Type 0) : Type 0 where
  pub get : MarketProvider → Result (MarketDataProvider F W)
  pub supports : MarketProvider → String → Interval → Bool
  pub enabled : List MarketProvider
  pub canonical_symbol : Option (MarketProvider → String → Option String)

module _ {F W : Type 0} where
  unfoldable pub static_get :
      Option (MarketDataProvider F W) → MarketProvider → Result (MarketDataProvider F W)
  static_get none name = err (failure "market provider is unavailable")
  static_get (some provider) name =
      if not (name == binance)
      then err (errorf "market provider %q is not enabled" (name ∷ []))
      else ok provider

  unfoldable pub static_supports :
      Option (MarketDataProvider F W) → MarketProvider → String → Interval → Bool
  static_supports none name symbol interval = false
  static_supports (some provider) name symbol interval = name == binance

  unfoldable pub static_enabled : Option (MarketDataProvider F W) → List MarketProvider
  static_enabled none = []
  static_enabled (some provider) = binance ∷ []

  -- `NewStaticProviderResolver`
  unfoldable pub static_resolver : Option (MarketDataProvider F W) → ProviderResolver F W
  unfolding static_get static_supports static_enabled
  static_resolver provider = record {
    get = static_get provider;
    supports = static_supports provider;
    enabled = static_enabled provider;
    canonical_symbol = none;
  }

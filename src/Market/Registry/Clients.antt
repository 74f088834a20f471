-- ===== src/Market/Registry/Clients.antt =====
-- internal/market/registry.go: the construction of the two market clients.
use crypto_price_alert.Base.{ℕ, String, map, Result, ok, err}
use crypto_price_alert.Base.Dict.{Dict}
use crypto_price_alert.Domain.Interval.{Duration}
use crypto_price_alert.Domain.Candle.{Floats}
use crypto_price_alert.Market.Provider.{MarketDataProvider}
use crypto_price_alert.Market.Client.{HttpClient, Decoder}
use crypto_price_alert.Market.Binance
use crypto_price_alert.Market.Binance.{BinanceProvider, new_binance_provider}
use crypto_price_alert.Market.CoinMarketCap
use crypto_price_alert.Market.CoinMarketCap.{
  CoinMarketCapProvider, CoinMarketCapSymbol, Urls, new_coin_market_cap_provider,
}
use crypto_price_alert.Market.Registry.{Constructors}

-- The arguments of `NewProviderRegistry` behind the configuration, with what the clients take of the
-- libraries.
pub record ClientSettings (F W : Type 0) : Type 0 where
  pub client : HttpClient W
  pub max_attempts : ℕ
  pub backoff : Duration
  pub concurrency : ℕ
  pub floats : Floats F
  pub decoder : Decoder F
  pub urls : Urls

abbrev symbol_of : String × (String × String) → String × CoinMarketCapSymbol
symbol_of (symbol, (platform, address)) =
    (symbol, record { platform = platform; address = address })

module _ {F W : Type 0} where
  abbrev pub binance_kline : Result (BinanceProvider F W) → Result (MarketDataProvider F W)
  binance_kline (ok p) = ok (Binance.get_kline p)
  binance_kline (err e) = err e

  abbrev pub coin_market_cap_kline :
      Result (CoinMarketCapProvider F W) → Result (MarketDataProvider F W)
  coin_market_cap_kline (ok p) = ok (CoinMarketCap.get_kline p)
  coin_market_cap_kline (err e) = err e

  -- The settings that a constructor of the source gets.
  abbrev pub binance_settings :
      ClientSettings F W → String → Dict String String → BinanceProvider F W
  binance_settings s base_url symbols = record {
    base_url = base_url;
    symbols = symbols;
    client = s.client;
    max_attempts = s.max_attempts;
    backoff = s.backoff;
    floats = s.floats;
    decoder = s.decoder;
  }

  abbrev pub coin_market_cap_settings :
      ClientSettings F W
      → String
      → String
      → String
      → Dict String (String × String)
      → CoinMarketCapProvider F W
  coin_market_cap_settings s base_url api_key unit symbols = record {
    base_url = base_url;
    api_key = api_key;
    unit = unit;
    symbols = map symbol_of symbols;
    client = s.client;
    max_attempts = s.max_attempts;
    backoff = s.backoff;
    floats = s.floats;
    decoder = s.decoder;
    urls = s.urls;
  }

  unfoldable pub constructors : ClientSettings F W → Constructors F W
  unfolding new_binance_provider new_coin_market_cap_provider Binance.get_kline
      CoinMarketCap.get_kline
  constructors s = record {
    new_binance = λ base_url symbols.
        binance_kline (new_binance_provider (binance_settings s base_url symbols) s.concurrency);
    new_coin_market_cap = λ base_url api_key unit symbols. coin_market_cap_kline (
        new_coin_market_cap_provider (coin_market_cap_settings s base_url api_key unit symbols)
          s.concurrency);
  }

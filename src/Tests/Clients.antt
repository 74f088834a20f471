-- ===== src/Tests/Clients.antt =====
-- The market clients in memory, and their theorems there.
use crypto_price_alert.Base.{
  ℕ, ◌*◌, ◌+◌, ◌≡◌, refl, true, string_eq, nat_eq, [], ◌∷◌, ok, ok?, ◌==◌, if◌then◌else◌,
}
use crypto_price_alert.Base.Dict.{lookup, insert, erase}
use crypto_price_alert.Base.Text.{trim_space, to_lower, to_upper, trim_code, decimal, reverse_onto}
use crypto_price_alert.Base.Text.Integers.{parse_int}
use crypto_price_alert.Domain.Interval
use crypto_price_alert.Domain.Interval.{unix_epoch, second, duration}
use crypto_price_alert.Domain.Candle.{Candle}
use crypto_price_alert.Domain.Candle
use crypto_price_alert.Config.Settings.{ProviderSymbolConfig, MarketConfig}
use crypto_price_alert.Market.Client.{
  HttpClient, Decoder, unix_time, unix_text, parse_int64, bad_request, judge, attempts,
}
use crypto_price_alert.Market.Binance.Candles.{IsOf}
use crypto_price_alert.Market.CoinMarketCap
use crypto_price_alert.Market.CoinMarketCap.{
  CoinMarketCapProvider, new_coin_market_cap_provider, check_mappings, prepare, request_url,
  coin_market_cap_interval, request, read_body, find_candle, read_row, candle_of, parse_json_float,
  parse_unix_seconds, is_quoted,
}
use crypto_price_alert.Market.CoinMarketCap.Candles.{IsExact, get_kline-IsExact}
use crypto_price_alert.Market.Registry
use crypto_price_alert.Market.Registry.{
  ProviderRegistry, new_provider_registry, register_all, construct, canonical_of, own_symbols,
  mapped_symbols,
}
use crypto_price_alert.Market.Registry.Clients.{ClientSettings, constructors}
use crypto_price_alert.Market.Registry.Candles.{registry-IsOf}
use crypto_price_alert.Service.Change.{calculate_change}
use crypto_price_alert.Tests.World.{floats}

-- The world counts the requests.
abbrev client : HttpClient ℕ
client = record {
  new_request = λ url. ok tt;
  send = λ url headers w. (ok (record { status_code = 200; body = ok "rows" }), w + 1);
  wait = λ d w. (ok tt, w);
  acquire = λ w. (ok tt, w);
}

-- Two rows of CoinMarketCap, the second of them for the hour that begins at second 3600 of 1970.
abbrev decoder : Decoder ℕ
decoder = record {
  rows = λ body. ok (
      ("10" ∷ "20" ∷ "10" ∷ "20" ∷ "5" ∷ "0" ∷ [])
      ∷ ("10" ∷ "20" ∷ "10" ∷ "20" ∷ "5" ∷ "3600" ∷ [])
      ∷ []);
  text = λ raw. ok raw;
  number = λ raw. ok (if raw == "20" then 20 else if raw == "10" then 10 else 5);
  parse_float = λ text. ok 10;
}

abbrev from : ℕ
from = (unix_epoch + 3600) * second

abbrev to : ℕ
to = (unix_epoch + 7200) * second

abbrev settings : CoinMarketCapProvider ℕ ℕ
settings = record {
  base_url = "https://host/";
  api_key = "";
  unit = "usd";
  symbols = ("BTC", record { platform = "p"; address = "a" }) ∷ [];
  client = client;
  max_attempts = 2;
  backoff = second;
  floats = floats;
  decoder = decoder;
  urls = record { parse = λ url. ok tt; with_query = λ url path query. ok path };
}

made : new_coin_market_cap_provider settings 1 ≡ ok settings
unfolding new_coin_market_cap_provider check_mappings to_lower trim_space string_eq nat_eq
made = refl

abbrev candle : Candle ℕ
candle = record {
  symbol = "BTC";
  open_price = 10;
  high = 20;
  low = 10;
  close = 20;
  volume = 5;
  open_time = from;
  close_time = to;
}

fetched : (CoinMarketCap.get_kline settings "BTC" "1h" from to 0).0 ≡ ok candle
unfolding CoinMarketCap.get_kline prepare bad_request lookup coin_market_cap_interval request_url
    request read_body judge attempts find_candle read_row candle_of parse_json_float
    parse_unix_seconds is_quoted reverse_onto parse_int64 parse_int unix_time unix_text decimal
    trim_code trim_space duration Interval.validate Candle.validate string_eq nat_eq
fetched = refl

get_kline-IsExact_example :
    IsExact floats "BTC" from to candle
    × (ok?
          (calculate_change floats candle "1h" (record { interval = "1h"; start = from; end = to }))
        ≡ true)
get_kline-IsExact_example =
    get_kline-IsExact settings "BTC" "1h" from to settings 1 candle 0 made fetched

abbrev mapping : ProviderSymbolConfig
mapping = record { symbol = ""; platform = "p"; address = "a" }

abbrev market_config : MarketConfig
market_config = record {
  default_provider = "coinmarketcap";
  symbols = "BTC" ∷ [];
  intervals = "1h" ∷ [];
  providers =
      (
        "coinmarketcap",
        record {
          enabled = true;
          base_url = "https://host/";
          api_key = "";
          unit = "usd";
          symbols = ("BTC", mapping) ∷ [];
        },
      )
      ∷ [];
}

abbrev clients : ClientSettings ℕ ℕ
clients = record {
  client = client;
  max_attempts = 2;
  backoff = second;
  concurrency = 1;
  floats = floats;
  decoder = decoder;
  urls = settings.urls;
}

abbrev registry : ProviderRegistry ℕ ℕ
registry = record {
  providers = ("coinmarketcap", CoinMarketCap.get_kline settings) ∷ [];
  capabilities = ("coinmarketcap", record { symbols = "BTC" ∷ []; intervals = "1h" ∷ [] }) ∷ [];
  canonical_symbols = ("coinmarketcap", ("BTC", "BTC") ∷ []) ∷ [];
  default_provider = "coinmarketcap";
}

registered : new_provider_registry (constructors clients) market_config ≡ ok registry
unfolding new_provider_registry register_all construct constructors new_coin_market_cap_provider
    check_mappings canonical_of own_symbols mapped_symbols lookup insert erase
    Registry.normalize_symbol to_upper to_lower trim_space string_eq nat_eq
registered = refl

resolved : Registry.get registry "coinmarketcap" ≡ ok (CoinMarketCap.get_kline settings)
unfolding Registry.get lookup string_eq
resolved = refl

registry-IsOf_example : IsOf floats "BTC" candle
registry-IsOf_example =
    registry-IsOf clients market_config registry "coinmarketcap" (CoinMarketCap.get_kline settings)
      "BTC" "1h" from to candle 0 registered resolved fetched

-- ===== src/Market/Binance.antt =====
-- internal/market/binance.go
pub mod Candles
use Prim.Native.String.{◌++◌ as ◌<>◌}
use crypto_price_alert.Base.{
  ℕ, String, ◌==◌, nat_eq, string_eq, not, ◌||◌, Option, none, some, List, [], ◌∷◌, Error, failure,
  errorf, Result, ok, err, ◌>>=◌, ◌>>◌, empty?, if◌then◌else◌,
}
use crypto_price_alert.Base.Dict.{Dict, lookup}
use crypto_price_alert.Base.Text.{decimal, has_prefix}
use crypto_price_alert.Domain.Interval.{Interval, Time, Duration}
use crypto_price_alert.Domain.Candle
use crypto_price_alert.Domain.Candle.{Floats, Candle}
use crypto_price_alert.Market.Provider.{MarketDataProvider}
use crypto_price_alert.Notification.Retry.{Response}
use crypto_price_alert.Market.Client.{
  HttpClient, Decoder, Attempt, unix_time, unix_text, parse_int64, wrap, bad_request, judge,
  attempts,
}

pub record BinanceProvider (F W : Type 0) : Type 0 where
  pub base_url : String
  pub symbols : Dict String String
  pub client : HttpClient W
  pub max_attempts : ℕ
  pub backoff : Duration
  pub floats : Floats F
  pub decoder : Decoder F

-- `NewBinanceProvider`, of the settings as they are given.
unfoldable pub new_binance_provider :
    {F W : Type 0} → BinanceProvider F W → ℕ → Result (BinanceProvider F W)
new_binance_provider p concurrency =
    if p.max_attempts == 0 || p.backoff == 0 || concurrency == 0
    then err (failure "invalid Binance provider settings")
    else ok
        (record p { base_url = if p.base_url == "" then "https://api.binance.com" else p.base_url })

-- The nanoseconds of a millisecond
abbrev millisecond : Duration
millisecond = 1000000

-- The first seven values of a row.
pub record RawKline : Type 0 where
  pub open_time : String
  pub open_price : String
  pub high : String
  pub low : String
  pub close : String
  pub volume : String
  pub close_time : String

module _ {F : Type 0} (decoder : Decoder F) where
  -- A raw value without its quotation marks.
  unfoldable pub read_value : String → Result String
  read_value raw =
      if has_prefix raw "\""
      then wrap "decode Binance kline value %d: %w" (decoder.text raw)
      else ok raw

  -- The first row of the answer.
  unfoldable pub read_rows : List (List String) → Result RawKline
  unfolding read_value
  read_rows ((v0 ∷ v1 ∷ v2 ∷ v3 ∷ v4 ∷ v5 ∷ v6 ∷ more) ∷ rows) = do
    open_time ← read_value v0
    open_price ← read_value v1
    high ← read_value v2
    low ← read_value v3
    close ← read_value v4
    volume ← read_value v5
    close_time ← read_value v6
    ok (record {
      open_time = open_time;
      open_price = open_price;
      high = high;
      low = low;
      close = close;
      volume = volume;
      close_time = close_time;
    })
  read_rows _ = err (failure "Binance kline response is empty or malformed")

  -- `parseToCandle`, which leaves the symbol empty.
  unfoldable pub parse_to_candle : RawKline → Result (Candle F)
  unfolding parse_int64 unix_time
  parse_to_candle values = do
    open_time ← wrap "parse kline open time: %w" (parse_int64 values.open_time)
    close_time ← wrap "parse kline close time: %w" (parse_int64 values.close_time)
    open_price ← wrap "parse kline open: %w" (decoder.parse_float values.open_price)
    high ← wrap "parse kline high: %w" (decoder.parse_float values.high)
    low ← wrap "parse kline low: %w" (decoder.parse_float values.low)
    close ← wrap "parse kline close: %w" (decoder.parse_float values.close)
    volume ← wrap "parse kline volume: %w" (decoder.parse_float values.volume)
    ok (record {
      symbol = "";
      open_price = open_price;
      high = high;
      low = low;
      close = close;
      volume = volume;
      open_time = unix_time millisecond open_time;
      close_time = unix_time millisecond close_time;
    })

  -- What `request` reads in the body of a good answer.
  unfoldable pub read_body : Floats F → String → String → Result (Candle F)
  unfolding read_rows parse_to_candle Candle.validate
  read_body fl symbol body = do
    rows ← wrap "decode Binance kline response: %w" (decoder.rows body)
    values ← read_rows rows
    parsed ← parse_to_candle values
    Candle.validate fl (record parsed { symbol = symbol })
    ok (record parsed { symbol = symbol })

abbrev pub http_error : Response → Option String → Error
http_error response none = errorf "Binance HTTP status %d" (decimal response.status_code ∷ [])
http_error response (some body) =
    errorf "Binance HTTP status %d: %s" (decimal response.status_code ∷ body ∷ [])

module _ {F W : Type 0} (p : BinanceProvider F W) where
  -- The symbol of the request: without mappings the symbol itself.
  unfoldable pub request_symbol : String → Result String
  unfolding lookup
  request_symbol symbol =
      if empty? p.symbols
      then ok symbol
      else (elim (lookup symbol p.symbols) as (λ found. Result String) [
        | none ↦ err (errorf "Binance symbol %q is not configured" (symbol ∷ []))
        | some mapped ↦
            if mapped == ""
            then err (errorf "Binance symbol %q is not configured" (symbol ∷ []))
            else ok mapped
      ])

  unfoldable pub kline_url : String → Interval → Time → Time → String
  unfolding unix_text
  kline_url symbol interval start end =
      p.base_url
      <> "/api/v3/klines?symbol="
      <> symbol
      <> "&interval="
      <> interval
      <> "&startTime="
      <> unix_text millisecond start
      <> "&endTime="
      <> unix_text millisecond end
      <> "&limit=1"

  unfoldable pub request : String → String → W → Attempt F × W
  unfolding read_body judge
  request url symbol w = elim (p.client.new_request url) [
    | err e ↦ (Attempt.refused e, w)
    | ok made ↦
        let (answer, w1) = p.client.send url [] w in
        (judge http_error (read_body p.decoder p.floats symbol) answer, w1)
  ]

  -- `GetKline`
  unfoldable pub get_kline : MarketDataProvider F W
  unfolding bad_request request_symbol kline_url request attempts
  get_kline symbol interval start end w =
      if bad_request symbol interval start end
      then (err (failure "invalid kline request"), w)
      else (let (acquired, w1) = p.client.acquire w in
          elim acquired [
            | err e ↦ (err e, w1)
            | ok entered ↦ elim (request_symbol symbol) [
              | err e ↦ (err e, w1)
              | ok name ↦
                  attempts p.floats p.client p.backoff
                    (request (kline_url name interval start end) symbol) p.max_attempts 0 none w1
            ]
          ])

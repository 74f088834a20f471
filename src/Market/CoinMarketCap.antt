-- ===== src/Market/CoinMarketCap.antt =====
-- internal/market/coinmarketcap.go. The URLs of `net/url` are parameters.
pub mod Candles
use Prim.Native.String.{◌++◌ as ◌<>◌}
use crypto_price_alert.Base.{
  ℕ, ◌+◌, String, Bool, ◌==◌, nat_eq, string_eq, not, ◌&&◌, ◌||◌, Option, none, some, List, [], ◌∷◌,
  Error, failure, errorf, wrapped, Result, ok, err, Status, fail_if, ◌>>=◌, ◌>>◌, if◌then◌else◌,
}
use crypto_price_alert.Base.Dict.{Dict, lookup}
use crypto_price_alert.Base.Text.{
  trim_space, trim_code, to_lower, decimal, has_prefix, reverse_onto,
}
use crypto_price_alert.Domain.Interval
use crypto_price_alert.Domain.Interval.{Interval, Time, Duration, second, duration}
use crypto_price_alert.Domain.Candle
use crypto_price_alert.Domain.Candle.{Floats, Candle}
use crypto_price_alert.Market.Provider.{MarketDataProvider}
use crypto_price_alert.Notification.Retry.{Response}
use crypto_price_alert.Market.Client.{
  HttpClient, Decoder, Attempt, unix_time, unix_text, parse_int64, wrap, bad_request, judge,
  attempts,
}

pub record CoinMarketCapSymbol : Type 0 where
  pub platform : String
  pub address : String

-- `parse` is `url.ParseRequestURI`; `with_query` is `url.Parse` of an address, with a path behind its
-- own and entries set in its query.
pub record Urls : Type 0 where
  pub parse : String → Status
  pub with_query : String → String → Dict String String → Result String

pub record CoinMarketCapProvider (F W : Type 0) : Type 0 where
  pub base_url : String
  pub api_key : String
  pub unit : String
  pub symbols : Dict String CoinMarketCapSymbol
  pub client : HttpClient W
  pub max_attempts : ℕ
  pub backoff : Duration
  pub floats : Floats F
  pub decoder : Decoder F
  pub urls : Urls

-- The loop over the mappings.
unfoldable pub check_mappings : Dict String CoinMarketCapSymbol → Status
unfolding trim_space
check_mappings [] = ok tt
check_mappings ((symbol, mapping) ∷ rest) =
    let others = check_mappings rest in
    if trim_space symbol == ""
      || trim_space mapping.platform == ""
      || trim_space mapping.address == ""
    then err (errorf "invalid CoinMarketCap symbol mapping for %q" (symbol ∷ []))
    else others

-- `NewCoinMarketCapProvider`, of the settings as they are given.
unfoldable pub new_coin_market_cap_provider :
    {F W : Type 0} → CoinMarketCapProvider F W → ℕ → Result (CoinMarketCapProvider F W)
unfolding check_mappings to_lower
new_coin_market_cap_provider p concurrency = do
  let base_url = if p.base_url == "" then "https://pro-api.coinmarketcap.com" else p.base_url
  let unit = if p.unit == "" then "usd" else p.unit
  fail_if
      (not (to_lower unit == "usd") || p.max_attempts == 0 || p.backoff == 0 || concurrency == 0)
      (failure "invalid CoinMarketCap provider settings")
  wrap "invalid CoinMarketCap base URL: %w" (p.urls.parse base_url)
  check_mappings p.symbols
  ok (record p { base_url = base_url; unit = to_lower unit })

abbrev intervals : Dict Interval String
intervals =
    ("1m", "1min")
    ∷ ("3m", "3min")
    ∷ ("5m", "5min")
    ∷ ("15m", "15min")
    ∷ ("30m", "30min")
    ∷ ("1h", "1h")
    ∷ ("2h", "2h")
    ∷ ("4h", "4h")
    ∷ ("6h", "6h")
    ∷ ("8h", "8h")
    ∷ ("12h", "12h")
    ∷ ("1d", "1d")
    ∷ ("3d", "3d")
    ∷ ("1w", "1w")
    ∷ []

unfoldable pub coin_market_cap_interval : Interval → Result String
unfolding lookup
coin_market_cap_interval interval = elim (lookup interval intervals) [
  | none ↦ err (errorf "unsupported CoinMarketCap interval %q" (interval ∷ []))
  | some value ↦ ok value
]

-- A text that begins and ends with a quotation mark, and is not that mark alone.
unfoldable pub is_quoted : String → Bool
unfolding reverse_onto
is_quoted text =
    not (text == "\"") && has_prefix text "\"" && has_prefix (reverse_onto text "") "\""

-- The numbers of a row.
pub record Row (F : Type 0) : Type 0 where
  pub open_price : F
  pub high : F
  pub low : F
  pub close : F
  pub volume : F
  pub open_time : Time

unfoldable pub candle_of : {F : Type 0} → String → Duration → Row F → Candle F
candle_of symbol d row = record {
  symbol = symbol;
  open_price = row.open_price;
  high = row.high;
  low = row.low;
  close = row.close;
  volume = row.volume;
  open_time = row.open_time;
  close_time = row.open_time + d;
}

module _ {F : Type 0} (decoder : Decoder F) where
  abbrev quoted_or_plain : String → Result String
  quoted_or_plain raw =
      if is_quoted (trim_space raw)
      then (do text ← decoder.text raw; ok (trim_space text))
      else ok (trim_space raw)

  unfoldable pub parse_unix_seconds : String → Result (Bool × ℕ)
  unfolding is_quoted trim_space parse_int64
  parse_unix_seconds raw = do
    value ← quoted_or_plain raw
    fail_if (value == "") (failure "empty timestamp")
    parse_int64 value

  unfoldable pub parse_json_float : String → Result F
  parse_json_float raw =
      if has_prefix raw "\""
      then (do text ← decoder.text raw; decoder.parse_float text)
      else decoder.number raw

  abbrev parse_value : String → Result F
  parse_value raw = wrap "parse CoinMarketCap kline value %d: %w" (parse_json_float raw)

  -- A row of the answer; `none` if it is too short.
  unfoldable pub read_row : List String → Option (Result (Row F))
  unfolding parse_json_float parse_unix_seconds unix_time
  read_row (v0 ∷ v1 ∷ v2 ∷ v3 ∷ v4 ∷ stamp ∷ more) = some (do
    open_price ← parse_value v0
    high ← parse_value v1
    low ← parse_value v2
    close ← parse_value v3
    volume ← parse_value v4
    seconds ← wrap "parse CoinMarketCap kline timestamp: %w" (parse_unix_seconds stamp)
    ok (record {
      open_price = open_price;
      high = high;
      low = low;
      close = close;
      volume = volume;
      open_time = unix_time second seconds;
    }))
  read_row _ = none

abbrev pub no_candle : Error
no_candle = failure "CoinMarketCap response has no candle for requested period"

-- The loop over the rows: the first row of the period, which has to be a valid candle.
unfoldable pub find_candle :
    {F : Type 0}
    → Floats F
    → Decoder F
    → String
    → Duration
    → Time
    → Time
    → List (List String)
    → Result (Candle F)
unfolding read_row candle_of Candle.validate
find_candle fl decoder symbol d start end [] = err no_candle
find_candle fl decoder symbol d start end (row ∷ rest) = elim (read_row decoder row) [
  | none ↦ find_candle fl decoder symbol d start end rest
  | some read ↦ elim read [
    | err e ↦ err e
    | ok values ↦
        let later = find_candle fl decoder symbol d start end rest in
        if not (values.open_time == start) || not (values.open_time + d == end)
        then later
        else (elim (Candle.validate fl (candle_of symbol d values)) [
          | err e ↦ err (wrapped "validate CoinMarketCap candle: %w" e)
          | ok valid ↦ ok (candle_of symbol d values)
        ])
  ]
]

abbrev length_of : Interval → Duration
length_of interval = elim (duration interval) [ err e ↦ 0 | ok d ↦ d ]

abbrev pub http_error : Response → Option String → Error
http_error response body = errorf "CoinMarketCap HTTP status %d" (decimal response.status_code ∷ [])

module _ {F W : Type 0} (p : CoinMarketCapProvider F W) where
  unfoldable pub request_url : CoinMarketCapSymbol → String → Time → Time → Result String
  unfolding unix_text trim_code
  request_url mapping interval start end = wrap "parse CoinMarketCap base URL: %w" (
      p.urls.with_query (trim_code 47 p.base_url)
        (if p.api_key == "" then "/public-api/v1/k-line/candles" else "/v1/k-line/candles")
        (("platform", mapping.platform)
          ∷ ("address", mapping.address)
          ∷ ("interval", interval)
          ∷ ("from", unix_text second start)
          ∷ ("to", unix_text second end)
          ∷ ("unit", p.unit)
          ∷ ("limit", "2")
          ∷ []))

  -- What `request` reads in the body of a good answer.
  unfoldable pub read_body : String → Interval → Time → Time → String → Result (Candle F)
  unfolding find_candle duration
  read_body symbol interval start end body = do
    rows ← wrap "decode CoinMarketCap kline response: %w" (p.decoder.rows body)
    find_candle p.floats p.decoder symbol (length_of interval) start end rows

  unfoldable pub request : String → String → Interval → Time → Time → W → Attempt F × W
  unfolding read_body judge
  request url symbol interval start end w = elim (p.client.new_request url) [
    | err e ↦ (Attempt.refused e, w)
    | ok made ↦
        let headers : Dict String String =
          if p.api_key == "" then [] else ("X-CMC_PRO_API_KEY", p.api_key) ∷ [] in
        let (answer, w1) = p.client.send url headers w in
        (judge http_error (read_body symbol interval start end) answer, w1)
  ]

  -- What stands before the requests: the URL of the request.
  unfoldable pub prepare : String → Interval → Time → Time → Result String
  unfolding bad_request lookup coin_market_cap_interval request_url
  prepare symbol interval start end = do
    fail_if (bad_request symbol interval start end) (failure "invalid kline request")
    mapping ← elim (lookup symbol p.symbols) as (λ found. Result CoinMarketCapSymbol) [
      | none ↦ err (errorf "CoinMarketCap symbol %q is not configured" (symbol ∷ []))
      | some mapping ↦ ok mapping
    ]
    name ← coin_market_cap_interval interval
    request_url mapping name start end

  -- `GetKline`
  unfoldable pub get_kline : MarketDataProvider F W
  unfolding prepare request attempts
  get_kline symbol interval start end w = elim (prepare symbol interval start end) [
    | err e ↦ (err e, w)
    | ok url ↦
        let (acquired, w1) = p.client.acquire w in
        elim acquired [
          | err e ↦ (err e, w1)
          | ok entered ↦
              attempts p.floats p.client p.backoff (request url symbol interval start end)
                p.max_attempts 0 none w1
        ]
  ]

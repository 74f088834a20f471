-- ===== src/Market/Client.antt =====
-- What internal/market/binance.go and internal/market/coinmarketcap.go share: the requests of one
-- candle, and the loop that repeats them. The HTTP client, the timer and the semaphore that limits the
-- concurrency are parameters, which change the world `W`; so are the readers of JSON and of a `float64`.
pub mod Attempts
use Prim.Native.String.{◌++◌ as ◌<>◌}
use crypto_price_alert.Base.{
  wrap64, ℕ, zero, suc, ◌+◌, ◌-◌, ◌*◌, ◌/◌, ◌^◌, String, Bool, ◌==◌, nat_eq, string_eq, not, ◌||◌,
  Option, none, some, List, [], ◌∷◌, Error, failure, wrapped, Result, ok, err, Status, ok?, ltb,
  leb, if◌then◌else◌,
}
use crypto_price_alert.Base.Dict.{Dict}
use crypto_price_alert.Base.Text.{decimal}
use crypto_price_alert.Base.Text.Integers.{parse_int}
use crypto_price_alert.Domain.Interval
use crypto_price_alert.Domain.Interval.{Interval, Time, Duration, second, unix_epoch}
use crypto_price_alert.Domain.Candle.{Floats, Candle}
use crypto_price_alert.Notification.Retry.{Response}

-- `new_request` is `NewRequestWithContext` of a GET request to a URL, `send` sends it with headers,
-- `wait` is the pause, which the end of the context cuts short with an error, and `acquire` waits for
-- the semaphore or the end of the context.
pub record HttpClient (W : Type 0) : Type 0 where
  pub new_request : String → Status
  pub send : String → Dict String String → W → Result Response × W
  pub wait : Duration → W → Status × W
  pub acquire : W → Status × W

-- `json.Unmarshal` of rows of raw values, of a text and of a number, and `strconv.ParseFloat`.
pub record Decoder (F : Type 0) : Type 0 where
  pub rows : String → Result (List (List String))
  pub text : String → Result String
  pub number : String → Result F
  pub parse_float : String → Result F

-- One request: a candle, an error after which no request follows, or one after which another may.
pub data Attempt (F : Type 0) : Type 0 where
  fetched : Candle F → Attempt F
  refused : Error → Attempt F
  retry : Error → Attempt F

-- A `time.Unix` or `time.UnixMilli` of a number of units with its sign.
unfoldable pub unix_time : Duration → Bool × ℕ → Time
unix_time unit (negative, n) =
    if negative then unix_epoch * second - n * unit else unix_epoch * second + n * unit

-- `Unix` or `UnixMilli` of an instant, as `%d`.
unfoldable pub unix_text : Duration → Time → String
unix_text unit t =
    if leb (unix_epoch * second) t
    then decimal ((t - unix_epoch * second) / unit)
    else "-" <> decimal ((unix_epoch * second - t + (unit - 1)) / unit)

-- `strconv.ParseInt`, with the error that it gives
unfoldable pub parse_int64 : String → Result (Bool × ℕ)
unfolding parse_int
parse_int64 text = elim (parse_int text) [ none ↦ err (failure "invalid integer") | some n ↦ ok n ]

-- `fmt.Errorf` with `%w`
abbrev pub wrap : {A : Type 0} → String → Result A → Result A
wrap message (ok a) = ok a
wrap message (err e) = err (wrapped message e)

-- The test that refuses a request of a candle.
unfoldable pub bad_request : String → Interval → Time → Time → Bool
unfolding Interval.validate
bad_request symbol interval start end =
    symbol == ""
    || not (ok? (Interval.validate interval))
    || start == 0
    || end == 0
    || not (ltb start end)

-- The answer of one request, behind its sending: `read` gets the body of a good answer, and `failed` that of
-- one after which no request follows.
unfoldable pub judge :
    {F : Type 0}
    → (Response → Option String → Error)
    → (String → Result (Candle F))
    → Result Response
    → Attempt F
judge failed read (err e) = Attempt.retry e
judge failed read (ok response) = elim response.body [
  | err e ↦ Attempt.retry e
  | ok body ↦
      if response.status_code == 429 || leb 500 response.status_code
      then Attempt.retry (failed response none)
      else if ltb response.status_code 200 || leb 300 response.status_code
      then Attempt.refused (failed response (some body))
      else (elim (read body) [ err e ↦ Attempt.refused e | ok candle ↦ Attempt.fetched candle ])
]

module _ {F W : Type 0} (fl : Floats F) (client : HttpClient W) (backoff : Duration)
    (request : W → Attempt F × W) where
  -- `domain.Candle{}`
  abbrev zero_candle : Candle F
  zero_candle = record {
    symbol = "";
    open_price = fl.zero_f;
    high = fl.zero_f;
    low = fl.zero_f;
    close = fl.zero_f;
    volume = fl.zero_f;
    open_time = 0;
    close_time = 0;
  }

  -- Behind the loop: the last error, or a candle of zeros if there was no attempt.
  abbrev after_loop : Option Error → Result (Candle F)
  after_loop none = ok zero_candle
  after_loop (some e) = err e

  -- The loop, with `left` attempts to come; `attempt` counts those before.
  unfoldable pub attempts : ℕ → ℕ → Option Error → W → Result (Candle F) × W
  attempts zero attempt last w = (after_loop last, w)
  attempts (suc left) attempt last w =
      let (answer, w1) = request w in
      let (paused, w2) = client.wait (wrap64 (backoff * 2 ^ attempt)) w1 in
      elim answer [
        | Attempt.fetched candle ↦ (ok candle, w1)
        | Attempt.refused e ↦ (err e, w1)
        | Attempt.retry e ↦ elim left [
          | zero ↦ (err e, w1)
          | suc more ↦ elim paused [
            | err cut ↦ (err cut, w2)
            | ok over ↦ attempts left (suc attempt) (some e) w2
          ]
        ]
      ]

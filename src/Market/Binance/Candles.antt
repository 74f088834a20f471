-- ===== src/Market/Binance/Candles.antt =====
-- Which candle internal/market/binance.go gives.
use mathlib.Core.Path.{subst}
use crypto_price_alert.Base.{
  String, ◌≡◌, ◌≢◌, nat_eq, string_eq, none, ok, arith, refl, Result-cases, inl, inr, ok_injective,
  err≢ok, Bool-cases,
}
use crypto_price_alert.Domain.Interval.{Interval, Time}
use crypto_price_alert.Domain.Candle
use crypto_price_alert.Domain.Candle.{Floats, Candle}
use crypto_price_alert.Market.Client.{Decoder, Attempt, bad_request}
use crypto_price_alert.Market.Client.Attempts.{attempts-Fetched, judge-fetched}
use crypto_price_alert.Market.Binance.{
  BinanceProvider, read_rows, parse_to_candle, read_body, request, request_symbol, kline_url,
  get_kline, http_error,
}

-- A valid candle of the symbol that was asked for.
pub record IsOf {F : Type 0} (fl : Floats F) (symbol : String) (candle : Candle F) : Type 0 where
  pub of_symbol : candle.symbol ≡ symbol
  pub valid : Candle.validate fl candle ≡ ok tt

read_body-IsOf :
    {F : Type 0} (fl : Floats F) (decoder : Decoder F) (symbol body : String) (candle : Candle F)
    → read_body decoder fl symbol body ≡ ok candle
    → IsOf fl symbol candle
unfolding read_body
read_body-IsOf fl decoder symbol body candle h = elim (Result-cases (decoder.rows body)) [
  | inr (error, r) ↦ absurd (err≢ok (rw (read_body, r) at h))
  | inl (rows, r) ↦ elim (Result-cases (read_rows decoder rows)) [
    | inr (error, v) ↦ absurd (err≢ok (rw (read_body, r, v) at h))
    | inl (values, v) ↦ elim (Result-cases (parse_to_candle decoder values)) [
      | inr (error, c) ↦ absurd (err≢ok (rw (read_body, r, v, c) at h))
      | inl (parsed, c) ↦
          (let found : Candle _ = record parsed { symbol = symbol } in
            elim (Result-cases (Candle.validate fl found)) [
              | inr (error, x) ↦ absurd (err≢ok (rw (read_body, r, v, c, x) at h))
              | inl (passed, x) ↦
                  subst (IsOf fl symbol) (ok_injective (rw (read_body, r, v, c, x) at h))
                    (record { of_symbol = refl; valid = x })
            ])
    ]
  ]
]

module _ {F W : Type 0} (p : BinanceProvider F W) (symbol : String) where
  request-IsOf :
      (url : String) (candle : Candle F) (w : W)
      → (request p url symbol w).0 ≡ Attempt.fetched candle
      → IsOf p.floats symbol candle
  unfolding request
  request-IsOf url candle w h = elim (Result-cases (p.client.new_request url)) [
    | inr (error, n) ↦ absurd (ground arith)
    | inl (made, n) ↦
        (let (body, read) =
            judge-fetched http_error (read_body p.decoder p.floats symbol) _ candle
              (rw (request, n) at h) in
          read_body-IsOf p.floats p.decoder symbol body candle read)
  ]

  -- A candle of a Binance provider with at least one attempt is a valid candle of the symbol that was
  -- asked for, whatever the name by which the request asks for it.
  pub get_kline-IsOf :
      (interval : Interval) (start end : Time) (candle : Candle F) (w : W)
      → p.max_attempts ≢ 0
      → (get_kline p symbol interval start end w).0 ≡ ok candle
      → IsOf p.floats symbol candle
  unfolding get_kline
  get_kline-IsOf interval start end candle w n h =
      elim (Bool-cases (bad_request symbol interval start end)) [
        | inl bad ↦ absurd (err≢ok (rw (get_kline, bad) at h))
        | inr good ↦ elim (Result-cases (p.client.acquire w).0) [
          | inr (error, a) ↦ absurd (err≢ok (rw (get_kline, good, a) at h))
          | inl (entered, a) ↦ elim (Result-cases (request_symbol p symbol)) [
            | inr (error, s) ↦ absurd (err≢ok (rw (get_kline, good, a, s) at h))
            | inl (name, s) ↦
                (let url = kline_url p name interval start end in
                  let f =
                    attempts-Fetched p.floats p.client p.backoff (request p url symbol)
                      p.max_attempts 0 none candle (p.client.acquire w).1 n
                      (rw (get_kline, good, a, s) at h) in
                  request-IsOf url candle f.before f.answered)
          ]
        ]
      ]

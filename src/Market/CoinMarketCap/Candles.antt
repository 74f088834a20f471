-- ===== src/Market/CoinMarketCap/Candles.antt =====
-- Which candle internal/market/coinmarketcap.go gives.
use mathlib.Core.Path.{subst}
use crypto_price_alert.Base.{
  ℕ, ◌+◌, String, true, ◌==◌, ◌≡◌, ◌≢◌, nat_eq, string_eq, not, ◌||◌, none, Option-cases, List, [],
  ◌∷◌, ok, ok?, arith, refl, Result-cases, inl, inr, Bool-cases, ok_injective, err≢ok, false,
}
use crypto_price_alert.Domain.Interval.{Interval, Time, Duration}
use crypto_price_alert.Domain.Candle
use crypto_price_alert.Domain.Candle.{Floats, Candle}
use crypto_price_alert.Service.Change.{calculate_change}
use crypto_price_alert.Market.Client.{Decoder, Attempt}
use crypto_price_alert.Market.Client.Attempts.{attempts-Fetched, judge-fetched}
use crypto_price_alert.Market.CoinMarketCap.{
  Row, candle_of, CoinMarketCapProvider, new_coin_market_cap_provider, read_row, find_candle,
  read_body, request, prepare, get_kline, http_error,
}

-- The candle that was asked for.
pub record IsExact {F : Type 0} (fl : Floats F) (symbol : String) (start end : Time)
    (candle : Candle F) : Type 0 where
  pub of_symbol : candle.symbol ≡ symbol
  pub from_start : candle.open_time ≡ start
  pub to_end : candle.close_time ≡ end
  pub valid : Candle.validate fl candle ≡ ok tt

module _ {F : Type 0} (fl : Floats F) (decoder : Decoder F) (symbol : String) (d : Duration)
    (start end : Time) where
  candle_of-IsExact :
      (row : Row F)
      → (not (row.open_time == start) || not (row.open_time + d == end)) ≡ false
      → Candle.validate fl (candle_of symbol d row) ≡ ok tt
      → IsExact fl symbol start end (candle_of symbol d row)
  unfolding candle_of
  candle_of-IsExact row same checked = record {
    of_symbol = refl;
    from_start = ground arith;
    to_end = ground arith;
    valid = checked;
  }

  find_candle-IsExact :
      (rows : List (List String)) (candle : Candle F)
      → find_candle fl decoder symbol d start end rows ≡ ok candle
      → IsExact fl symbol start end candle
  unfolding find_candle
  find_candle-IsExact [] candle h = absurd (ground arith)
  find_candle-IsExact (row ∷ rest) candle h = elim (Option-cases (read_row decoder row)) [
    | inl short ↦ find_candle-IsExact rest candle (rw (find_candle, short) at h)
    | inr (read, r) ↦ elim (Result-cases read) [
      | inr (error, q) ↦ absurd (err≢ok (rw (find_candle, r, q) at h))
      | inl (values, q) ↦
          elim (Bool-cases (not (values.open_time == start) || not (values.open_time + d == end))) [
            | inl other ↦ find_candle-IsExact rest candle (rw (find_candle, r, q, other) at h)
            | inr same ↦ elim (Result-cases (Candle.validate fl (candle_of symbol d values))) [
              | inr (error, c) ↦ absurd (err≢ok (rw (find_candle, r, q, same, c) at h))
              | inl (passed, c) ↦
                  subst (IsExact fl symbol start end)
                    (ok_injective (rw (find_candle, r, q, same, c) at h))
                    (candle_of-IsExact values same c)
            ]
          ]
    ]
  ]

calculate_change-IsExact :
    {F : Type 0} (fl : Floats F) (symbol : String) (interval : Interval) (start end : Time)
    (candle : Candle F)
    → IsExact fl symbol start end candle
    → ok? (
        calculate_change fl candle interval
          (record { interval = interval; start = start; end = end }))
      ≡ true
unfolding calculate_change
calculate_change-IsExact fl symbol interval start end candle x =
    rw (calculate_change, x.valid, x.from_start, x.to_end) (ground arith)

max_attempts-new :
    {F W : Type 0} (settings p : CoinMarketCapProvider F W) (concurrency : ℕ)
    → new_coin_market_cap_provider settings concurrency ≡ ok p
    → p.max_attempts ≢ 0
unfolding new_coin_market_cap_provider
max_attempts-new settings p concurrency made = ground arith

module _ {F W : Type 0} (p : CoinMarketCapProvider F W) (symbol : String) (interval : Interval)
    (start end : Time) where
  read_body-IsExact :
      (body : String) (candle : Candle F)
      → read_body p symbol interval start end body ≡ ok candle
      → IsExact p.floats symbol start end candle
  unfolding read_body
  read_body-IsExact body candle h = elim (Result-cases (p.decoder.rows body)) [
    | inr (error, r) ↦ absurd (err≢ok (rw (read_body, r) at h))
    | inl (rows, r) ↦
        find_candle-IsExact p.floats p.decoder symbol _ start end rows candle
          (rw (read_body, r) at h)
  ]

  request-IsExact :
      (url : String) (candle : Candle F) (w : W)
      → (request p url symbol interval start end w).0 ≡ Attempt.fetched candle
      → IsExact p.floats symbol start end candle
  unfolding request
  request-IsExact url candle w h = elim (Result-cases (p.client.new_request url)) [
    | inr (error, n) ↦ absurd (ground arith)
    | inl (made, n) ↦
        (let (body, read) =
            judge-fetched http_error (read_body p symbol interval start end) _ candle
              (rw (request, n) at h) in
          read_body-IsExact body candle read)
  ]

  get_kline-fetched :
      (candle : Candle F) (w : W)
      → p.max_attempts ≢ 0
      → (get_kline p symbol interval start end w).0 ≡ ok candle
      → IsExact p.floats symbol start end candle
  unfolding get_kline
  get_kline-fetched candle w n h = elim (Result-cases (prepare p symbol interval start end)) [
    | inr (error, u) ↦ absurd (err≢ok (rw (get_kline, u) at h))
    | inl (url, u) ↦ elim (Result-cases (p.client.acquire w).0) [
      | inr (error, a) ↦ absurd (err≢ok (rw (get_kline, u, a) at h))
      | inl (entered, a) ↦
          (let f =
              attempts-Fetched p.floats p.client p.backoff (request p url symbol interval start end)
                p.max_attempts 0 none candle (p.client.acquire w).1 n (rw (get_kline, u, a) at h) in
            request-IsExact url candle f.before f.answered)
    ]
  ]

  -- A candle of a CoinMarketCap provider that the constructor made is the one of the symbol that
  -- begins and ends with the period, it is valid, and the change of its price can be calculated.
  pub get_kline-IsExact :
      (settings : CoinMarketCapProvider F W) (concurrency : ℕ) (candle : Candle F) (w : W)
      → new_coin_market_cap_provider settings concurrency ≡ ok p
      → (get_kline p symbol interval start end w).0 ≡ ok candle
      → IsExact p.floats symbol start end candle
        × (ok? (
              calculate_change p.floats candle interval
                (record { interval = interval; start = start; end = end }))
            ≡ true)
  get_kline-IsExact settings concurrency candle w made h =
      let x = get_kline-fetched candle w (max_attempts-new settings p concurrency made) h in
      (x, calculate_change-IsExact p.floats symbol interval start end candle x)

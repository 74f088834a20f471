-- ===== src/Service/Alert/Runs.antt =====
-- What a run of the alert service reports, and what a dry run leaves undone.
use crypto_price_alert.Base.{
  ◌≡◌, refl, String, Bool, true, false, Option, none, List, [], ◌∷◌, map, Result, ok, err, ok?,
  arith, Result-cases, inl, inr,
}
use crypto_price_alert.Domain.Interval
use crypto_price_alert.Domain.Interval.{Interval}
use crypto_price_alert.Domain.Period
use crypto_price_alert.Domain.Period.{Period}
use crypto_price_alert.Domain.Target.{AlertTarget}
use crypto_price_alert.Domain.Candle.{Candle}
use crypto_price_alert.Market.Provider.{MarketDataProvider}
use crypto_price_alert.Notification.Message.{PriceResult, build_message}
use crypto_price_alert.Service.Change.{calculate_change}
use crypto_price_alert.Service.Alert.{outcome_of, fetch_all, effective_symbols, publish, run}
use crypto_price_alert.Service.Alert.Settings.{AlertService, SymbolResult, RunResult}

module _ {F W : Type 0} (s : AlertService F W) where
  symbol-outcome_of :
      (symbol : String) (interval : Interval) (period : Period) (r : Result (Candle F))
      → (outcome_of s symbol interval period r).1.symbol ≡ symbol
  unfolding outcome_of
  symbol-outcome_of symbol interval period (err e) = refl
  symbol-outcome_of symbol interval period (ok candle) =
      elim (Result-cases (calculate_change s.floats candle interval period)) [
        | inl (change, h) ↦ rw (h, outcome_of) refl
        | inr (e, h) ↦ rw (h, outcome_of) refl
      ]

  symbols-fetch_all :
      (provider : MarketDataProvider F W) (interval : Interval) (period : Period)
      (symbols : List String) (w : W)
      → map (λ r. r.symbol) (map (λ o. o.1) (fetch_all s provider interval period symbols w).0)
        ≡ symbols
  unfolding fetch_all
  symbols-fetch_all provider interval period [] w = refl
  symbols-fetch_all provider interval period (symbol ∷ rest) w = rw (
    symbol-outcome_of symbol interval period (provider symbol interval period.start period.end w).0,
    symbols-fetch_all provider interval period rest
        (provider symbol interval period.start period.end w).1,
  )

  results-publish :
      (target : Option AlertTarget) (interval : Interval) (period : Period)
      (outcomes : List (PriceResult F × SymbolResult F)) (dry_run : Bool) (w : W)
      (result : RunResult F)
      → (publish s target interval period outcomes dry_run w).0 ≡ ok result
      → result.results ≡ map (λ o. o.1) outcomes
  unfolding publish
  results-publish target interval period outcomes dry_run w result h =
      elim (Result-cases (build_message s.floats period (map (λ o. o.0) outcomes) s.location)) [
        | inr (error, b) ↦ absurd (ground arith)
        | inl (message, b) ↦ ground arith
      ]

  -- A run of the alert service that succeeds reports one result for each of its symbols, in their
  -- order: for the given symbols, or for the default ones if none are given.
  pub symbols-run :
      (provider : MarketDataProvider F W) (target : Option AlertTarget) (interval : Interval)
      (period : Period) (symbols : List String) (dry_run : Bool) (w : W) (result : RunResult F)
      → (run s provider target interval period symbols dry_run w).0 ≡ ok result
      → map (λ r. r.symbol) result.results ≡ effective_symbols s symbols
  unfolding run
  symbols-run provider target interval period symbols dry_run w result h =
      elim (Result-cases (Interval.validate interval)) [
        | inr (error, i) ↦ absurd (ground arith)
        | inl (supported, i) ↦ elim (Result-cases (Period.validate period)) [
          | inr (error, p) ↦ absurd (ground arith)
          | inl (valid, p) ↦
              rw
                (results-publish target interval period
                  (fetch_all s provider interval period (effective_symbols s symbols) w).0 dry_run
                  (fetch_all s provider interval period (effective_symbols s symbols) w).1 result
                  (ground arith))
                (symbols-fetch_all provider interval period (effective_symbols s symbols) w)
        ]
      ]

  -- What a dry run returns for the outcome of a real one.
  abbrev pub as_dry : Result (RunResult F) → Result (RunResult F)
  as_dry (ok result) = ok (record result { dry_run = true; sent = none })
  as_dry (err e) = err e

  -- A dry run of the alert service returns what the run that sends returns, but for the report of
  -- the sending.
  pub dry_run-run :
      (provider : MarketDataProvider F W) (target : Option AlertTarget) (interval : Interval)
      (period : Period) (symbols : List String) (w : W)
      → (run s provider target interval period symbols true w).0
        ≡ as_dry (run s provider target interval period symbols false w).0
  unfolding run publish
  dry_run-run provider target interval period symbols w =
      elim (Result-cases (Interval.validate interval)) [
        | inr (error, i) ↦ ground arith
        | inl (supported, i) ↦ elim (Result-cases (Period.validate period)) [
          | inr (error, p) ↦ ground arith
          | inl (valid, p) ↦
              let outcomes =
                (fetch_all s provider interval period (effective_symbols s symbols) w).0 in
              elim (Result-cases
                (build_message s.floats period (map (λ o. o.0) outcomes) s.location)) [
                  | inr (error, b) ↦ ground arith
                  | inl (message, b) ↦ ground arith
                ]
        ]
      ]

  -- A dry run of the alert service that succeeds leaves the world as the fetches of its candles
  -- left it: it sends nothing.
  world-dry_run :
      (provider : MarketDataProvider F W) (target : Option AlertTarget) (interval : Interval)
      (period : Period) (symbols : List String) (w : W)
      → ok? (run s provider target interval period symbols true w).0 ≡ true
      → (run s provider target interval period symbols true w).1
        ≡ (fetch_all s provider interval period (effective_symbols s symbols) w).1
  unfolding run publish
  world-dry_run provider target interval period symbols w h = ground arith

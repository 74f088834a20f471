-- ===== src/Api/Handler/Silence.antt =====
-- Without a wish of the caller, internal/api/handler.go sends nothing.
use crypto_price_alert.Base.{
  ◌≡◌, refl, String, true, string_eq, none, some, List, [], ◌∷◌, ok, arith, Result-cases, inl, inr,
  ◌∙◌, Option-cases, if◌then◌else◌, empty?,
}
use crypto_price_alert.Domain.Interval
use crypto_price_alert.Domain.Interval.{Interval, Time}
use crypto_price_alert.Domain.Period.{Period}
use crypto_price_alert.Domain.Provider.{MarketProvider}
use crypto_price_alert.Market.Provider.{MarketDataProvider}
use crypto_price_alert.Service.Alert.{
  fetch_all, effective_symbols, publish, run, run_with_provider, run_with_default_provider,
}
use crypto_price_alert.Service.Alert.Settings.{AlertService}
use crypto_price_alert.Api.Handler.{
  Handler, RunAlertRequest, with_query, wants_dry, instant, resolve_period, start_run,
  answer_request, run_alert,
}

-- What the theorem relies on: `sends` counts the messages sent, and neither a market provider nor the
-- clock sends one.
pub record Quiet {F W : Type 0} (h : Handler F W) (alerts : AlertService F W) {S : Type 0}
    (sends : W → S) : Type 0 where
  pub provider :
      (name : MarketProvider) (p : MarketDataProvider F W) (symbol : String) (interval : Interval)
      (start end : Time) (w : W)
      → alerts.providers.get name ≡ ok p
      → sends (p symbol interval start end w).1 ≡ sends w
  pub clock : (w : W) → sends (h.now w).1 ≡ sends w

-- A request that does not ask for messages to be sent: `dry_run` is true in the body, or it is missing
-- there and is missing, `true` or `1` in the query.
pub data AsksDry (r : RunAlertRequest) (query : String → String) : Type 0 where
  in_body : r.dry_run ≡ some true → AsksDry r query
  missing : r.dry_run ≡ none → query "dry_run" ≡ "" → AsksDry r query
  as_true : r.dry_run ≡ none → query "dry_run" ≡ "true" → AsksDry r query
  as_one : r.dry_run ≡ none → query "dry_run" ≡ "1" → AsksDry r query

-- The program reads such a request as a dry run.
wants_dry-with_query :
    (r : RunAlertRequest) (query : String → String)
    → AsksDry r query
    → wants_dry (with_query query r).dry_run ≡ true
unfolding with_query string_eq
wants_dry-with_query r query (in_body b) = rw b refl
wants_dry-with_query r query (missing b q) = rw (b, q) refl
wants_dry-with_query r query (as_true b q) = rw (b, q) refl
wants_dry-with_query r query (as_one b q) = rw (b, q) refl

module _ {F W S : Type 0} (h : Handler F W) (alerts : AlertService F W) (sends : W → S)
    (quiet : Quiet h alerts sends) where
  module _ (name : MarketProvider) (p : MarketDataProvider F W)
      (found : alerts.providers.get name ≡ ok p) (interval : Interval) (period : Period) where
    sends-fetch_all :
        (symbols : List String) (w : W)
        → sends (fetch_all alerts p interval period symbols w).1 ≡ sends w
    unfolding fetch_all
    sends-fetch_all [] w = refl
    sends-fetch_all (symbol ∷ rest) w =
        sends-fetch_all rest (p symbol interval period.start period.end w).1
        ∙ quiet.provider name p symbol interval period.start period.end w found

    sends-run :
        (symbols : List String) (w : W)
        → sends (run alerts p none interval period symbols true w).1 ≡ sends w
    unfolding run publish
    sends-run symbols w = ground (arith, sends-fetch_all (effective_symbols alerts symbols) w)

  sends-run_with_provider :
      (name : MarketProvider) (interval : Interval) (period : Period) (symbols : List String)
      (w : W)
      → sends (run_with_provider alerts name interval period symbols true w).1 ≡ sends w
  unfolding run_with_provider
  sends-run_with_provider name interval period symbols w =
      elim (Result-cases (alerts.providers.get name)) [
        | inr (error, g) ↦ rw (run_with_provider, g) refl
        | inl (p, g) ↦
            ground
              (arith, g, sends-run name p g interval period (effective_symbols alerts symbols) w)
      ]

  sends-resolve_period :
      (interval : Interval) (r : RunAlertRequest) (w : W)
      → sends (resolve_period h interval r w).1 ≡ sends w
  unfolding resolve_period instant
  sends-resolve_period interval r w = ground (arith, quiet.clock w)

  sends-start_run :
      (interval : Interval) (period : Period) (r : RunAlertRequest) (w : W)
      → wants_dry r.dry_run ≡ true
      → sends (start_run h alerts interval period r w).1 ≡ sends w
  unfolding start_run run_with_default_provider
  sends-start_run interval period r w dry = ground (
    arith,
    dry,
    sends-run_with_provider alerts.default_provider interval period
        (if empty? r.symbols then alerts.default_symbols else r.symbols) w,
    sends-run_with_provider r.provider interval period
        (if empty? r.symbols then alerts.default_symbols else r.symbols) w,
  )

  sends-answer_request :
      (r : RunAlertRequest) (w : W)
      → wants_dry r.dry_run ≡ true
      → sends (answer_request h alerts r w).1 ≡ sends w
  unfolding answer_request
  sends-answer_request r w dry = elim (Result-cases (Interval.validate r.interval)) [
    | inr (error, v) ↦ rw (answer_request, v) refl
    | inl (valid, v) ↦
        (let resolved = resolve_period h r.interval r w in
          let kept = sends-resolve_period r.interval r w in
          elim (Result-cases resolved.0) [
            | inr (error, p) ↦ rw (answer_request, v, p) kept
            | inl (due, p) ↦ elim (Option-cases due) [
              | inl skipped ↦ rw (answer_request, v, p, skipped) kept
              | inr (period, there) ↦
                  rw (answer_request, v, p, there)
                    (sends-start_run r.interval period r resolved.1 dry ∙ kept)
            ]
          ])
  ]

  -- Over market providers and a clock that send no message, a run that a caller asks for sends none
  -- if its `dry_run` is true in the body, or is missing there and is missing, `true` or `1` in the
  -- query.
  pub sends-run_alert :
      (r : RunAlertRequest) (query : String → String) (w : W)
      → h.alerts ≡ some alerts
      → AsksDry r query
      → sends (run_alert h (ok r) query w).1 ≡ sends w
  unfolding run_alert
  sends-run_alert r query w known dry = elim (Option-cases h.periods) [
    | inl absent ↦ rw (run_alert, known, absent) refl
    | inr (engine, there) ↦
        rw (run_alert, known, there)
          (sends-answer_request (with_query query r) w (wants_dry-with_query r query dry))
  ]

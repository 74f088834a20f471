-- ===== src/Service/Alert.antt =====
-- `AlertService` of internal/service/alert.go: the runs that a caller asks for, apart from the
-- scheduler and its job rows.
pub mod Settings
pub mod Runs
use Prim.Native.String.{◌++◌ as ◌<>◌}
use crypto_price_alert.Base.{
  ℕ, suc, String, Bool, true, false, ◌==◌, nat_eq, string_eq, not, ◌&&◌, ◌||◌, Option, none, some,
  List, [], ◌∷◌, map, Error, failure, errorf, wrapped, Result, ok, err, Status, empty?,
  if◌then◌else◌,
}
use crypto_price_alert.Base.Text.{decimal}
use crypto_price_alert.Base.Dict
use crypto_price_alert.Base.Dict.{Dict}
use crypto_price_alert.Domain.Interval
use crypto_price_alert.Domain.Interval.{Interval}
use crypto_price_alert.Domain.Period
use crypto_price_alert.Domain.Period.{Period, Message}
use crypto_price_alert.Domain.Provider
use crypto_price_alert.Domain.Provider.{MarketProvider}
use crypto_price_alert.Domain.Candle.{Candle}
use crypto_price_alert.Domain.Target.{AlertTarget}
use crypto_price_alert.Market.Provider.{MarketDataProvider}
use crypto_price_alert.Notification.Message.{
  PriceResult, priced, unavailable, build_message, render_message,
}
use crypto_price_alert.Notification.Notifier.{Notifier, send_to_target}
use crypto_price_alert.Service.Change.{calculate_change}
use crypto_price_alert.Service.Alert.Settings.{SymbolResult, RunResult, AlertService}

module _ {F W : Type 0} (s : AlertService F W) where
  -- A symbol without a change: its entry in the message and its entry in the report.
  abbrev failed : String → Error → PriceResult F × SymbolResult F
  failed symbol e = (
    unavailable symbol,
    record {
      symbol = symbol;
      open_price = s.floats.zero_f;
      close = s.floats.zero_f;
      change_pct = s.floats.zero_f;
      volume = s.floats.zero_f;
      unavailable = true;
      error = s.host.error_text e;
    },
  )

  -- The body of the loop over the symbols, behind `GetKline`.
  unfoldable pub outcome_of :
      String → Interval → Period → Result (Candle F) → PriceResult F × SymbolResult F
  outcome_of symbol interval period (err e) = failed symbol e
  outcome_of symbol interval period (ok candle) =
      elim (calculate_change s.floats candle interval period) [
        | err e ↦ failed symbol e
        | ok change ↦ (
          priced change,
          record {
            symbol = symbol;
            open_price = change.open_price;
            close = change.close;
            change_pct = change.change_pct;
            volume = change.volume;
            unavailable = false;
            error = "";
          },
        )
      ]

  unfoldable pub fetch_all :
      MarketDataProvider F W
      → Interval
      → Period
      → List String
      → W
      → List (PriceResult F × SymbolResult F) × W
  unfolding outcome_of
  fetch_all provider interval period [] w = ([], w)
  fetch_all provider interval period (symbol ∷ rest) w =
      let (candle, w1) = provider symbol interval period.start period.end w in
      let (others, w2) = fetch_all provider interval period rest w1 in
      (outcome_of symbol interval period candle ∷ others, w2)

  -- The symbols of a run: the default ones if none are given.
  abbrev pub effective_symbols : List String → List String
  effective_symbols symbols = if empty? symbols then s.default_symbols else symbols

  -- The name of the notifier at position `i`: `names` holds the names from that position on.
  unfoldable pub notifier_name : ℕ → List String → String
  notifier_name i [] = "notifier_" <> decimal i
  notifier_name i (name ∷ names) = name

  unfoldable pub rest_of : List String → List String
  rest_of [] = []
  rest_of (name ∷ names) = names

  -- What the report says of one notifier.
  unfoldable pub sent_text : Status → String
  sent_text (ok u) = "sent"
  sent_text (err e) = "failed: " <> s.host.error_text e

  -- The message is routed to the target, or sent to the chat of the notifier if there is no target.
  unfoldable pub send_one : Option AlertTarget → Notifier W → Message → W → Status × W
  unfolding send_to_target
  send_one none n message w = n.send message w
  send_one (some target) n message w = send_to_target n target message w

  -- The loop over the notifiers, from position `i` on.
  unfoldable pub send_all :
      Option AlertTarget
      → Message
      → ℕ
      → List String
      → List (Notifier W)
      → Dict String String
      → W
      → Dict String String × W
  unfolding send_one sent_text notifier_name rest_of
  send_all target message i names [] sent w = (sent, w)
  send_all target message i names (n ∷ ns) sent w =
      let (r, w1) = send_one target n message w in
      send_all target message (suc i) (rest_of names) ns
        (Dict.insert (notifier_name i names) (sent_text r) sent) w1

  -- What `run` reports before it sends anything.
  abbrev pub report :
      Interval → Period → List (PriceResult F × SymbolResult F) → Message → Bool → RunResult F
  report interval period outcomes message dry_run = record {
    interval = interval;
    period_start = period.start;
    period_end = period.end;
    results = map (λ o. o.1) outcomes;
    message_preview = render_message message;
    dry_run = dry_run;
    sent = none;
  }

  -- `run` from the results on
  unfoldable pub publish :
      Option AlertTarget
      → Interval
      → Period
      → List (PriceResult F × SymbolResult F)
      → Bool
      → W
      → Result (RunResult F) × W
  unfolding send_all
  publish target interval period outcomes dry_run w =
      if empty? outcomes
      then (err (failure "no symbols to process"), w)
      else (elim (build_message s.floats period (map (λ o. o.0) outcomes) s.location) [
        | err e ↦ (err e, w)
        | ok message ↦
            let plain = report interval period outcomes message dry_run in
            if dry_run
            then (ok plain, w)
            else (let (sent, w1) = send_all target message 0 s.notifier_names s.notifiers [] w in
                (ok (record plain { sent = some sent }), w1))
      ])

  unfoldable pub run :
      MarketDataProvider F W
      → Option AlertTarget
      → Interval
      → Period
      → List String
      → Bool
      → W
      → Result (RunResult F) × W
  unfolding fetch_all publish
  run provider target interval period symbols dry_run w = elim (Interval.validate interval) [
    | err e ↦ (err e, w)
    | ok supported ↦ elim (Period.validate period) [
      | err e ↦ (err (wrapped "invalid period: %w" e), w)
      | ok valid ↦
          let (outcomes, w1) = fetch_all provider interval period (effective_symbols symbols) w in
          publish target interval period outcomes dry_run w1
    ]
  ]

  -- The first symbol that the provider does not support.
  unfoldable pub check_support : MarketProvider → Interval → List String → Status
  check_support name interval [] = ok tt
  check_support name interval (symbol ∷ rest) =
      let others = check_support name interval rest in
      if not (s.providers.supports name symbol interval)
      then err (errorf "market provider %q does not support %s/%s" (name ∷ symbol ∷ interval ∷ []))
      else others

  -- `RunWithProvider`
  unfoldable pub run_with_provider :
      MarketProvider → Interval → Period → List String → Bool → W → Result (RunResult F) × W
  unfolding check_support run
  run_with_provider name interval period symbols dry_run w = elim (s.providers.get name) [
    | err e ↦ (err e, w)
    | ok provider ↦ elim (check_support name interval (effective_symbols symbols)) [
      | err e ↦ (err e, w)
      | ok supported ↦ run provider none interval period (effective_symbols symbols) dry_run w
    ]
  ]

  -- `RunWithProviderForTarget`
  unfoldable pub run_with_provider_for_target :
      MarketProvider
      → AlertTarget
      → Interval
      → Period
      → List String
      → Bool
      → W
      → Result (RunResult F) × W
  unfolding run
  run_with_provider_for_target name target interval period symbols dry_run w =
      elim (s.providers.get name) [
        | err e ↦ (err e, w)
        | ok provider ↦ run provider (some target) interval period symbols dry_run w
      ]

  -- `Run`
  unfoldable pub run_with_default_provider :
      Interval → Period → List String → Bool → W → Result (RunResult F) × W
  unfolding run_with_provider
  run_with_default_provider = run_with_provider s.default_provider

  -- `RunForTarget`
  unfoldable pub run_for_target :
      AlertTarget → Interval → Period → List String → Bool → W → Result (RunResult F) × W
  unfolding run_with_provider_for_target
  run_for_target = run_with_provider_for_target s.default_provider

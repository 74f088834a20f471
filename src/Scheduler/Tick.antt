-- ===== src/Scheduler/Tick.antt =====
-- internal/scheduler/scheduler.go: the cron specification of the tick, and what one tick runs.
use Prim.Native.String.{◌++◌ as ◌<>◌}
use crypto_price_alert.Base.{
  ℕ, ◌/◌, ◌%◌, String, ◌==◌, nat_eq, string_eq, none, some, List, [], ◌∷◌, Result, ok, err, Status,
  ltb, leb, if◌then◌else◌, Option, absent, empty?, ◌||◌, failure, wrapped, fail_if, ◌>>=◌, ◌>>◌,
}
use crypto_price_alert.Base.Text.{decimal}
use crypto_price_alert.Domain.Location.{Location}
use crypto_price_alert.Domain.Interval
use crypto_price_alert.Domain.Interval.{Interval, Time, minute, hour, duration}
use crypto_price_alert.Scheduler.Period.{PeriodEngine, new_period_engine, get_current_period}

-- `intervalToCronSpec` behind the error of `Duration`
unfoldable pub cron_of_duration : ℕ → String
cron_of_duration d =
    let minutes = d / minute in
    let hours = d / hour in
    if ltb minutes 60
    then (if leb minutes 1
        then "* * * * *"
        else if 60 % minutes == 0
        then "*/" <> decimal minutes <> " * * * *"
        else "* * * * *")
    else if ltb hours 24
    then (if hours == 1
        then "0 * * * *"
        else if 24 % hours == 0
        then "0 */" <> decimal hours <> " * * *"
        else "0 * * * *")
    else "0 0 * * *"

unfoldable pub interval_to_cron_spec : Interval → Result String
unfolding cron_of_duration
interval_to_cron_spec interval = elim (duration interval) [
  | err e ↦ err e
  | ok d ↦ ok (cron_of_duration d)
]

-- `tick`: the executor is run for each interval that is due, and its error is dropped.
unfoldable pub tick :
    {W : Type 0} → PeriodEngine → (Time → Interval → W → Status × W) → List Interval → Time → W → W
tick engine execute [] now w = w
tick engine execute (interval ∷ rest) now w =
    tick engine execute rest now (elim (get_current_period (some engine) now interval) [
      | none ↦ w
      | some period ↦ (execute now interval w).1
    ])

-- A `Scheduler`, but for the cron library.
pub record Scheduler (W : Type 0) : Type 0 where
  pub executor : Time → Interval → W → Status × W
  pub tick_interval : Interval
  pub intervals : List Interval
  pub period_engine : PeriodEngine

-- `Execute` of the interface is what the scheduler has of its executor.
unfoldable pub new_scheduler :
    {W : Type 0}
    → Option Location
    → (Time → Interval → W → Status × W)
    → Interval
    → List Interval
    → String
    → String
    → Result (Scheduler W)
new_scheduler location executor tick_interval intervals active_from active_until =
    let ticks = if tick_interval == "" then "1m" else tick_interval in
    do
      fail_if (absent location || empty? intervals) (failure "invalid scheduler settings")
      (elim (Interval.validate ticks) [
        | err e ↦ err (wrapped "invalid tick_interval: %w" e)
        | ok valid ↦ ok tt
      ])
      engine ← new_period_engine location active_from active_until
      ok (record {
        executor = executor;
        tick_interval = ticks;
        intervals = intervals;
        period_engine = engine;
      })

-- `Start`: the specification that the cron library gets, and what it runs at an instant.
unfoldable pub start : {W : Type 0} → Scheduler W → Result (String × (Time → W → W))
unfolding interval_to_cron_spec tick
start s = do
  spec ← interval_to_cron_spec s.tick_interval
  ok (spec, tick s.period_engine s.executor s.intervals)

-- ===== src/Scheduler/Period.antt =====
-- internal/scheduler/period.go: which period of an interval has ended, and whether it is due.
pub mod Tiling
use crypto_price_alert.Base.{
  ℕ, ◌+◌, ◌-◌, ◌/◌, ◌%◌, String, ◌==◌, nat_eq, string_eq, not, ◌||◌, Option, none, some, failure,
  Result, ok, err, leb, ltb, if◌then◌else◌,
}
use crypto_price_alert.Domain.Interval.{Interval, Time, Duration, minute, day, duration}
use crypto_price_alert.Domain.Location.{Location}
use crypto_price_alert.Domain.Period.{Period}
use crypto_price_alert.Scheduler.Clock.{parse_clock}

pub record PeriodEngine : Type 0 where
  pub location : Option Location
  pub active_from : ℕ
  pub active_until : ℕ

abbrev parse_bound : String → String → String → Result ℕ
parse_bound value default message = elim (parse_clock (if value == "" then default else value)) [
  | none ↦ err (failure message)
  | some m ↦ ok m
]

unfoldable pub new_period_engine : Option Location → String → String → Result PeriodEngine
new_period_engine none active_from active_until = err (failure "location is required")
new_period_engine (some location) active_from active_until =
    elim (parse_bound active_from "06:00" "invalid activeFrom time format") [
      | err e ↦ err e
      | ok from ↦ elim (parse_bound active_until "23:00" "invalid activeUntil time format") [
        | err e ↦ err e
        | ok until ↦
            ok (record { location = some location; active_from = from; active_until = until })
      ]
    ]

-- The period of length `d` that ends at the minute of `now`. The elapsed time of the day in UTC must
-- be a multiple of `d`. The minutes are counted from local midnight of the first day; a start before
-- that midnight gives a negative number of minutes, which is below every bound.
unfoldable pub period_of : PeriodEngine → Location → Interval → Duration → Time → Option Period
period_of e location interval d now =
    let end = now - now % minute in
    let start = end - d in
    let base = location.day_start start in
    if not (end % day % d == 0)
    then none
    else if leb minute (base - start)
        || ltb ((start - base) / minute) e.active_from
        || ltb e.active_until ((end - base) / minute)
    then none
    else some (record { interval = interval; start = start; end = end })

-- `GetCurrentPeriod`; a nil engine is `none`.
unfoldable pub get_current_period : Option PeriodEngine → Time → Interval → Option Period
unfolding period_of
get_current_period none now interval = none
get_current_period (some e) now interval = elim e.location [
  | none ↦ none
  | some location ↦ elim (duration interval) [
    | err error ↦ none
    | ok d ↦ period_of e location interval d now
  ]
]

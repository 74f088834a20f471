-- ===== src/Tests/Periods.antt =====
-- Runs of the period engine and of the cleanup, and their theorems at concrete inputs.
use Prim.Native.Nat.{min}
use crypto_price_alert.Base.{
  ℕ, ◌-◌, ◌*◌, ◌+◌, ◌≤◌, ◌≡◌, ◌⊎◌, refl, none, some, ok, arith, string_eq, nat_eq,
}
use crypto_price_alert.Domain.Interval.{Time, hour, day, duration}
use crypto_price_alert.Domain.Period.{Period}
use crypto_price_alert.Repository.Ports.{CleanupRepository}
use crypto_price_alert.Scheduler.Period.{get_current_period}
use crypto_price_alert.Scheduler.Period.Tiling.{periods_disjoint, day_long-never_due, boundary-due}
use crypto_price_alert.Scheduler.Cleanup.{cleanup}
use crypto_price_alert.Scheduler.Cleanup.Ending.{CleanupContract, Ended, cleanup_ends}
use crypto_price_alert.Tests.World.{utc, engine}

-- Ten o'clock and seven seconds on the tenth day of the year 1.
abbrev ten : Time
ten = 9 * day + 10 * hour + 7000000000

abbrev from_nine : Period
from_nine = record { interval = "1h"; start = 9 * day + 9 * hour; end = 9 * day + 10 * hour }

abbrev from_ten : Period
from_ten = record { interval = "1h"; start = 9 * day + 10 * hour; end = 9 * day + 11 * hour }

due_at_ten : get_current_period (some engine) ten "1h" ≡ some from_nine
unfolding get_current_period duration string_eq nat_eq
due_at_ten = refl

due_at_eleven : get_current_period (some engine) (ten + hour) "1h" ≡ some from_ten
unfolding get_current_period duration string_eq nat_eq
due_at_eleven = refl

hour_long : duration "1h" ≡ ok hour
unfolding duration string_eq
hour_long = refl

day_long : duration "1d" ≡ ok day
unfolding duration string_eq
day_long = refl

utc_midnight : (t : Time) → utc.day_start t ≤ t
utc_midnight t = omega arith

periods_disjoint_example :
    (from_nine ≡ from_ten) ⊎ ((from_nine.end ≤ from_ten.start) ⊎ (from_ten.end ≤ from_nine.start))
periods_disjoint_example =
    periods_disjoint engine utc utc_midnight (omega arith) "1h" ten (ten + hour) from_nine from_ten
      refl due_at_ten due_at_eleven

day_long-never_due_example : get_current_period (some engine) (9 * day) "1d" ≡ none
day_long-never_due_example =
    day_long-never_due engine utc utc_midnight (omega arith) "1d" day (9 * day) refl day_long
      (omega arith) (omega arith)

boundary-due_example : get_current_period (some engine) ten "1h" ≡ some from_nine
boundary-due_example =
    boundary-due engine utc "1h" hour ten (9 * day + 10 * hour) refl hour_long refl refl
      (omega arith) (omega arith) (omega arith) (omega arith) (omega arith)

-- A store that holds a number of stale rows.
abbrev stale_store : CleanupRepository ℕ
stale_store = record {
  delete_updated_before = λ cutoff limit w. (ok (min limit w), w - min limit w);
}

stale_store-contract : CleanupContract stale_store (5 - 2) (λ w. w)
stale_store-contract = record {
  deletes = λ limit w n h. ground arith;
  fails = λ limit w error h. absurd (ground arith);
}

cleanup_ends_example : Ended (λ w. w) 0 2500 (cleanup stale_store 2 5 3 2500)
cleanup_ends_example =
    cleanup_ends stale_store (λ w. w) 2 5 3 2500 stale_store-contract (omega arith)

-- ===== src/Scheduler/Period/Tiling.antt =====
-- What `GetCurrentPeriod` of internal/scheduler/period.go returns.
use native.Mathlib.Nat.{mod-eq_of_lt, mod-mod_of_dvd, dvd_of_mod-eq-zero, div-add-mod}
use crypto_price_alert.Base.{
  ℕ, ◌+◌, ◌-◌, ◌/◌, ◌%◌, ◌*◌, ◌≤◌, ◌<◌, ◌≡◌, ◌⊎◌, inl, inr, none, some, ok, arith, Result-cases,
  Option-cases, nat_eq, string_eq, sym, ap, ◌∙◌,
}
use crypto_price_alert.Domain.Interval.{Interval, Time, Duration, minute, day, duration}
use crypto_price_alert.Domain.Location.{Location}
use crypto_price_alert.Domain.Period.{Period}
use crypto_price_alert.Scheduler.Period.{PeriodEngine, period_of, get_current_period}

-- A supported interval is a whole number of minutes, and it divides the day or is some days long.
pub duration_cases :
    (i : Interval) (d : Duration)
    → duration i ≡ ok d
    → (minute ≤ d) × (d % minute ≡ 0) × ((day % d ≡ 0) ⊎ (d % day ≡ 0))
unfolding duration
duration_cases i d h = ground arith

-- A period that is due comes from the engine's location and from a supported interval.
pub get_current_period-parts :
    (e : PeriodEngine) (now : Time) (i : Interval) (p : Period)
    → get_current_period (some e) now i ≡ some p
    → (loc : Location) × (d : Duration) × (e.location ≡ some loc)
      × (duration i ≡ ok d)
      × (period_of e loc i d now ≡ some p)
unfolding get_current_period
get_current_period-parts e now i p h = elim (Option-cases e.location) [
  | inl x ↦ absurd (ground arith)
  | inr (loc, x) ↦ elim (Result-cases (duration i)) [
    | inl (d, y) ↦ (loc, d, x, y, ground arith)
    | inr (error, y) ↦ absurd (ground arith)
  ]
]

-- The facts that a due period carries.
pub record IsDue (e : PeriodEngine) (loc : Location) (i : Interval) (d : Duration) (now : Time)
    (p : Period) : Type 0 where
  pub same_interval : p.interval ≡ i
  pub ends_now : p.end ≡ now - now % minute
  pub starts : p.start ≡ p.end - d
  pub aligned : p.end % day % d ≡ 0
  pub after_midnight : loc.day_start p.start < p.start + minute
  pub from_bound : e.active_from ≤ (p.start - loc.day_start p.start) / minute
  pub until_bound : (p.end - loc.day_start p.start) / minute ≤ e.active_until

pub period_of-IsDue :
    (e : PeriodEngine) (loc : Location) (i : Interval) (d : Duration) (now : Time) (p : Period)
    → period_of e loc i d now ≡ some p
    → IsDue e loc i d now p
unfolding period_of
period_of-IsDue e loc i d now p h = ground arith

-- Two multiples of `d` are at least `d` apart.
multiples_apart : (d a b : ℕ) → a % d ≡ 0 → b % d ≡ 0 → a < b → a + d ≤ b
multiples_apart d a b ha hb h = grind (arith, div-add-mod a d, div-add-mod b d)

aligned_end : (d n : ℕ) → day % d ≡ 0 → n % day % d ≡ 0 → n % d ≡ 0
aligned_end d n h a = sym (mod-mod_of_dvd d n (dvd_of_mod-eq-zero d h)) ∙ a

long_whole : (i : Interval) (d : Duration) → duration i ≡ ok d → day ≤ d → d % day ≡ 0
unfolding duration
long_whole i d h long = ground arith

compare_cases : (a b : ℕ) → (a ≡ b) ⊎ ((a < b) ⊎ (b < a))
compare_cases a b = ground arith

whole_days : (d : ℕ) → minute ≤ d → d % day ≡ 0 → day ≤ d
whole_days d h w = omega arith

pub get_current_period-eq :
    (e : PeriodEngine) (loc : Location) (i : Interval) (d : Duration) (now : Time)
    → e.location ≡ some loc
    → duration i ≡ ok d
    → get_current_period (some e) now i ≡ period_of e loc i d now
unfolding get_current_period
get_current_period-eq e loc i d now at h = ground arith

same_period :
    (e : PeriodEngine) (loc : Location) (i : Interval) (d : Duration) (now now' : Time)
    (p p' : Period)
    → IsDue e loc i d now p
    → IsDue e loc i d now' p'
    → p.end ≡ p'.end
    → p ≡ p'
same_period e loc i d now now' p p' due due' same = ground arith

-- The hypotheses on the time zone and on the engine: local midnight of a date is not behind any
-- instant of the date, and the end of the active hours is a time of day.
module _ (e : PeriodEngine) (loc : Location) (midnight : (t : Time) → loc.day_start t ≤ t)
    (bound : e.active_until < 1440) where
  long_period-end :
      (i : Interval) (d : Duration) (now : Time) (p : Period)
      → day ≤ d
      → d % day ≡ 0
      → IsDue e loc i d now p
      → p.end ≡ 0
  long_period-end i d now p long whole due =
      let short : p.end % day % d ≡ p.end % day = mod-eq_of_lt (omega arith) in
      omega (arith, midnight p.start)

  due-apart :
      (i : Interval) (d : Duration) (now now' : Time) (p p' : Period)
      → duration i ≡ ok d
      → IsDue e loc i d now p
      → IsDue e loc i d now' p'
      → p.end < p'.end
      → p.end ≤ p'.start
  due-apart i d now now' p p' h due due' lt = elim (duration_cases i d h).2 [
    | inl divides ↦
        (let gap : p.end + d ≤ p'.end =
            multiples_apart d p.end p'.end (aligned_end d p.end divides due.aligned)
              (aligned_end d p'.end divides due'.aligned) lt in
          omega arith)
    | inr whole ↦ absurd (
        omega (
          arith,
          long_period-end i d now' p' (whole_days d (duration_cases i d h).0 whole) whole due',
        ))
  ]

  -- Over an engine with a time zone in which midnight is not behind an instant of its date, and
  -- with active hours that end before 24:00, two periods that are due for one interval, at any two
  -- instants, are the same or do not overlap.
  pub periods_disjoint :
      (i : Interval) (now now' : Time) (p p' : Period)
      → e.location ≡ some loc
      → get_current_period (some e) now i ≡ some p
      → get_current_period (some e) now' i ≡ some p'
      → (p ≡ p') ⊎ ((p.end ≤ p'.start) ⊎ (p'.end ≤ p.start))
  periods_disjoint i now now' p p' at h h' =
      let (_, d, _, supported, _) = get_current_period-parts e now i p h in
      let due =
        period_of-IsDue e loc i d now p
          (sym (get_current_period-eq e loc i d now at supported) ∙ h) in
      let due' =
        period_of-IsDue e loc i d now' p'
          (sym (get_current_period-eq e loc i d now' at supported) ∙ h') in
      elim (compare_cases p.end p'.end) [
        | inl same ↦ inl (same_period e loc i d now now' p p' due due' same)
        | inr (inl lt) ↦ inr (inl (due-apart i d now now' p p' supported due due' lt))
        | inr (inr gt) ↦ inr (inr (due-apart i d now' now p' p supported due' due gt))
      ]

  -- Over an engine with a time zone in which midnight is not behind an instant of its date, and
  -- with active hours that end before 24:00, a supported interval of a day or more is never due
  -- from the second day of the calendar on.
  pub day_long-never_due :
      (i : Interval) (d : Duration) (now : Time)
      → e.location ≡ some loc
      → duration i ≡ ok d
      → day ≤ d
      → day ≤ now
      → get_current_period (some e) now i ≡ none
  day_long-never_due i d now at h long late =
      elim (Option-cases (get_current_period (some e) now i)) [
        | inl absent ↦ absent
        | inr (p, found) ↦
            (let due =
                period_of-IsDue e loc i d now p
                  (sym (get_current_period-eq e loc i d now at h) ∙ found) in
              absurd (omega (arith, long_period-end i d now p long (long_whole i d h long) due)))
      ]

last_minute :
    (d now end : ℕ)
    → d % minute ≡ 0
    → end % d ≡ 0
    → end ≤ now
    → now < end + minute
    → now - now % minute ≡ end
last_minute d now end whole aligned before within =
    let whole_end : end % minute ≡ 0 =
      sym (mod-mod_of_dvd minute end (dvd_of_mod-eq-zero minute whole))
      ∙ ap (λ x. x % minute) aligned in
    omega arith

period_of-eq_some :
    (e : PeriodEngine) (loc : Location) (i : Interval) (d : Duration) (now end : Time)
    → now - now % minute ≡ end
    → end % day % d ≡ 0
    → loc.day_start (end - d) ≤ end - d
    → e.active_from * minute ≤ end - d - loc.day_start (end - d)
    → end - loc.day_start (end - d) < (e.active_until + 1) * minute
    → period_of e loc i d now ≡ some (record { interval = i; start = end - d; end = end })
unfolding period_of
period_of-eq_some e loc i d now end ends aligned base from until = rw ends (ground arith)

-- For a supported interval that divides the day, a multiple of it is due during the whole minute
-- that follows, with the period that ends there, if the period starts on its local date and within
-- the active hours and does not end behind them.
pub boundary-due :
    (e : PeriodEngine) (loc : Location) (i : Interval) (d : Duration) (now end : Time)
    → e.location ≡ some loc
    → duration i ≡ ok d
    → day % d ≡ 0
    → end % d ≡ 0
    → end ≤ now
    → now < end + minute
    → loc.day_start (end - d) ≤ end - d
    → e.active_from * minute ≤ end - d - loc.day_start (end - d)
    → end - loc.day_start (end - d) < (e.active_until + 1) * minute
    → get_current_period (some e) now i ≡ some (record { interval = i; start = end - d; end = end })
boundary-due e loc i d now end at h divides aligned before within base from until =
    get_current_period-eq e loc i d now at h
    ∙ period_of-eq_some e loc i d now end
        (last_minute d now end (duration_cases i d h).1 aligned before within)
        (mod-mod_of_dvd d end (dvd_of_mod-eq-zero d divides) ∙ aligned) base from until

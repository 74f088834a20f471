-- ===== src/Scheduler/Clock.antt =====
-- `time.Parse("15:04", value)` of Go's standard library, as internal/scheduler/period.go uses it: one
-- or two digits of the hour, a colon, two digits of the minute, and nothing behind them.
use Prim.Native.Char.{code}
use crypto_price_alert.Base.{
  ℕ, ◌+◌, ◌-◌, ◌*◌, ◌<◌, ◌≡◌, String, ◌&&◌, Option, none, some, leb, ltb, arith, if◌then◌else◌,
}

digit : ℕ → Option ℕ
digit c = if leb 48 c && leb c 57 then some (c - 48) else none

-- The minutes since midnight, if both numbers are in range.
clock_minutes : ℕ → ℕ → Option ℕ
clock_minutes h m = if ltb h 24 && ltb m 60 then some (h * 60 + m) else none

-- What stands behind the hour: a colon and two digits.
minute_part : ℕ → String → Option ℕ
unfolding digit clock_minutes
minute_part h (String.◌∷◌ colon (String.◌∷◌ a (String.◌∷◌ b String.[]))) =
    if leb 58 (code colon) && leb (code colon) 58
    then (elim (digit (code a)) [
      | none ↦ none
      | some x ↦ elim (digit (code b)) [ none ↦ none | some y ↦ clock_minutes h (x * 10 + y) ]
    ])
    else none
minute_part h _ = none

-- The hour has a second digit if one follows.
hour_part : ℕ → String → Option ℕ
unfolding digit minute_part
hour_part x String.[] = none
hour_part x (String.◌∷◌ c rest) = elim (digit (code c)) [
  | none ↦ minute_part x (String.◌∷◌ c rest)
  | some y ↦ minute_part (x * 10 + y) rest
]

unfoldable pub parse_clock : String → Option ℕ
unfolding digit hour_part
parse_clock String.[] = none
parse_clock (String.◌∷◌ c rest) = elim (digit (code c)) [ none ↦ none | some x ↦ hour_part x rest ]

clock_minutes-lt : (h m n : ℕ) → clock_minutes h m ≡ some n → n < 1440
unfolding clock_minutes
clock_minutes-lt h m n e = ground arith

minute_part-lt : (h : ℕ) (s : String) (n : ℕ) → minute_part h s ≡ some n → n < 1440
unfolding minute_part
minute_part-lt h (String.◌∷◌ colon (String.◌∷◌ a (String.◌∷◌ b String.[]))) n e = ground arith
minute_part-lt h _ n e = cc

hour_part-lt : (x : ℕ) (s : String) (n : ℕ) → hour_part x s ≡ some n → n < 1440
unfolding hour_part
hour_part-lt x String.[] n e = cc
hour_part-lt x (String.◌∷◌ c rest) n e =
    ground (
      arith,
      minute_part-lt x (String.◌∷◌ c rest) n,
      minute_part-lt (x * 10 + (code c - 48)) rest n,
    )

-- A time of day lies within the day.
pub parse_clock-lt : (s : String) (n : ℕ) → parse_clock s ≡ some n → n < 1440
unfolding parse_clock
parse_clock-lt String.[] n e = cc
parse_clock-lt (String.◌∷◌ c rest) n e = ground (arith, hour_part-lt (code c - 48) rest n)

-- ===== src/Domain/Interval.antt =====
-- `Interval` of internal/domain/types.go
use crypto_price_alert.Base.{
  ℕ, ◌*◌, String, ◌==◌, string_eq, if◌then◌else◌, [], ◌∷◌, errorf, Result, ok, err, Status, ◌>>=◌,
}

abbrev pub Interval : Type 0
Interval = String

-- A `time.Time` and a `time.Duration` that is not negative, in nanoseconds.
abbrev pub Time : Type 0
Time = ℕ

abbrev pub Duration : Type 0
Duration = ℕ

abbrev pub second : Duration
second = 1000000000

abbrev pub minute : Duration
minute = 60000000000

abbrev pub hour : Duration
hour = 3600000000000

abbrev pub day : Duration
day = 86400000000000

-- The seconds from Go's zero time to 1970.
abbrev pub unix_epoch : ℕ
unix_epoch = 62135596800

unfoldable pub duration : Interval → Result Duration
duration i =
    if i == "1m"
    then ok minute
    else if i == "3m"
    then ok (3 * minute)
    else if i == "5m"
    then ok (5 * minute)
    else if i == "15m"
    then ok (15 * minute)
    else if i == "30m"
    then ok (30 * minute)
    else if i == "1h"
    then ok hour
    else if i == "2h"
    then ok (2 * hour)
    else if i == "4h"
    then ok (4 * hour)
    else if i == "6h"
    then ok (6 * hour)
    else if i == "8h"
    then ok (8 * hour)
    else if i == "12h"
    then ok (12 * hour)
    else if i == "1d"
    then ok (24 * hour)
    else if i == "3d"
    then ok (3 * (24 * hour))
    else if i == "1w"
    then ok (7 * (24 * hour))
    else err (errorf "unsupported interval %q" (i ∷ []))

unfoldable pub validate : Interval → Status
unfolding duration
validate i = do d ← duration i; ok tt

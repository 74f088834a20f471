-- ===== src/Domain/Location.antt =====
-- `*time.Location`, of Go's standard library and its time zone data.
use crypto_price_alert.Base.{String}
use crypto_price_alert.Domain.Interval.{Time}

-- What the program uses of a `*time.Location`: `day_start t` is the instant that `time.Date` returns
-- for midnight of the local date of `t`, `clock_text t` is `t.In(location).Format("15:04")`.
pub record Location : Type 0 where
  pub day_start : Time → Time
  pub clock_text : Time → String
  pub name : String

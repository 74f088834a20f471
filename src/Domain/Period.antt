-- ===== src/Domain/Period.antt =====
-- `Period` and `Message` of internal/domain/types.go
use crypto_price_alert.Base.{
  String, ◌==◌, nat_eq, not, ◌||◌, List, failure, Status, fail_if, ◌>>◌, ltb,
}
use crypto_price_alert.Domain.Interval
use crypto_price_alert.Domain.Interval.{Interval, Time}

pub record Period : Type 0 where
  pub interval : Interval
  pub start : Time
  pub end : Time

unfoldable pub validate : Period → Status
unfolding Interval.validate
validate p = do
  Interval.validate p.interval
  fail_if (p.start == 0 || p.end == 0 || not (ltb p.start p.end)) (failure "invalid period")

pub record Message : Type 0 where
  pub title : String
  pub period : Period
  pub lines : List String

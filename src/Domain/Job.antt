-- ===== src/Domain/Job.antt =====
-- `Job` and `JobStatus` of internal/domain/types.go
use crypto_price_alert.Base.{
  String, ◌==◌, nat_eq, string_eq, not, ◌||◌, ◌&&◌, [], ◌∷◌, Option, failure, errorf, Status,
  fail_if, ◌>>◌, ltb,
}
use crypto_price_alert.Domain.Interval
use crypto_price_alert.Domain.Interval.{Interval, Time}
use crypto_price_alert.Domain.Provider
use crypto_price_alert.Domain.Provider.{MarketProvider}

abbrev pub JobStatus : Type 0
JobStatus = String

abbrev pub pending : JobStatus
pending = "pending"

abbrev pub sent : JobStatus
sent = "sent"

abbrev pub failed : JobStatus
failed = "failed"

pub record Job : Type 0 where
  pub id : String
  pub target_id : String
  pub symbol : String
  pub market_provider : MarketProvider
  pub interval : Interval
  pub period_start : Time
  pub period_end : Time
  pub status : JobStatus
  pub error_message : String
  pub sent_at : Option Time
  pub created_at : Time
  pub updated_at : Time

unfoldable pub validate : Job → Status
validate j = do
  fail_if
      (j.id == ""
        || j.symbol == ""
        || j.market_provider == ""
        || j.period_start == 0
        || j.period_end == 0
        || not (ltb j.period_start j.period_end))
      (failure "invalid job")
  Interval.validate j.interval
  Provider.validate j.market_provider
  fail_if (not (j.status == pending) && not (j.status == sent) && not (j.status == failed))
      (errorf "unsupported job status %q" (j.status ∷ []))

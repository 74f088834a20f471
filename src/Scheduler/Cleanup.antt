-- ===== src/Scheduler/Cleanup.antt =====
-- internal/scheduler/notification_job_cleanup.go: stale jobs are deleted in batches.
pub mod Ending
use crypto_price_alert.Base.{
  not_positive, absent, ◌||◌, failure, fail_if, Result, ◌>>◌, String, ℕ, zero, suc, ◌+◌, ◌-◌,
  Option, none, some, Error, ok, err, wrap64, ltb, if◌then◌else◌,
}
use crypto_price_alert.Domain.Interval.{Time, Duration}
use crypto_price_alert.Domain.Location.{Location}
use crypto_price_alert.Repository.Ports.{CleanupRepository}

abbrev pub batch_size : ℕ
batch_size = 1000

-- What `cleanup` returns: the total, and the error that ended the loop, if there was one.
pub record Cleaned : Type 0 where
  pub deleted : ℕ
  pub error : Option Error

module _ {W : Type 0} (repository : CleanupRepository W) (cutoff : Time) where
  -- The `for` loop. `none` says that the fuel ran out.
  unfoldable pub cleanup_loop : ℕ → ℕ → W → Option (Cleaned × W)
  cleanup_loop zero total w = none
  cleanup_loop (suc fuel) total w =
      let (r, w') = repository.delete_updated_before cutoff batch_size w in
      elim r [
        | err e ↦ some (record { deleted = total; error = some e }, w')
        | ok n ↦
            let total' = wrap64 (total + n) in
            let rest = cleanup_loop fuel total' w' in
            if ltb n batch_size then some (record { deleted = total'; error = none }, w') else rest
      ]

unfoldable pub cleanup :
    {W : Type 0} → CleanupRepository W → Duration → Time → ℕ → W → Option (Cleaned × W)
unfolding cleanup_loop
cleanup repository retention now fuel w = cleanup_loop repository (now - retention) fuel 0 w

abbrev pub cleanup_cron : String
cleanup_cron = "0 0 * * *"

-- A `NotificationJobCleanupScheduler`, but for the cron library.
pub record CleanupScheduler (W : Type 0) : Type 0 where
  pub repository : CleanupRepository W
  pub retention : Duration

-- `NewNotificationJobCleanupScheduler`; the retention is an `int64`.
unfoldable pub new_cleanup_scheduler :
    {W : Type 0} → Option Location → CleanupRepository W → Duration → Result (CleanupScheduler W)
new_cleanup_scheduler location repository retention = do
  fail_if (absent location || not_positive retention)
      (failure "invalid notification job cleanup settings")
  ok (record { repository = repository; retention = retention })

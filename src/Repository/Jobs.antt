-- ===== src/Repository/Jobs.antt =====
-- The job rows of internal/repository/postgres.go.
pub mod Contract
use crypto_price_alert.Base.{
  ℕ, String, Bool, true, false, ◌==◌, string_eq, nat_eq, record_not_found, wrapped, failure, Result,
  ok, err, Status, fail_if, ltb, if◌then◌else◌,
}
use crypto_price_alert.Base.Action.{Action, pure, lift, ◌>>=◌, ◌>>◌}
use crypto_price_alert.Domain.Interval.{Time}
use crypto_price_alert.Domain.Job
use crypto_price_alert.Domain.Job.{Job}
use crypto_price_alert.Repository.Ports.{JobRepository, CleanupRepository}
use crypto_price_alert.Repository.Tables.{Tables}

-- `fmt.Errorf` with `%w` around the error of an operation.
abbrev pub wrap : {W A : Type 0} → String → Action W A → Action W A
wrap message m w = (elim (m w).0 [ ok a ↦ ok a | err e ↦ err (wrapped message e) ], (m w).1)

-- `database.LegacyTargetID`
abbrev pub legacy_target_id : String
legacy_target_id = "00000000-0000-0000-0000-000000000001"

module _ {W : Type 0} (t : Tables W) where
  unfoldable pub parse_target_id : String → Result String
  parse_target_id value = t.parse_uuid (if value == "" then legacy_target_id else value)

  -- The row of a job: a creation time that is not set is the present, and an update time that is not
  -- set is the creation time.
  unfoldable pub job_row : String → String → Job → Action W Job
  job_row id target_id job w =
      let (now, w1) = t.now w in
      let created = if job.created_at == 0 then now else job.created_at in
      (
        ok (record job {
          id = id;
          target_id = target_id;
          created_at = created;
          updated_at = if job.updated_at == 0 then created else job.updated_at;
        }),
        if job.created_at == 0 then w1 else w,
      )

  unfoldable pub find_existing : Job → Action W (Job × Bool)
  find_existing row = do
    existing ←
        wrap "load existing notification job: %w"
          (t.find_job row.target_id row.market_provider row.symbol row.interval row.period_start)
    pure (existing, false)

  -- The insertion, and the row that stood there before if nothing was inserted.
  unfoldable pub insert_or_find : Job → Action W (Job × Bool)
  unfolding find_existing
  insert_or_find row = do
    affected ← wrap "create notification job: %w" (t.insert_job row)
    if affected == 0 then find_existing row else pure (row, true)

  unfoldable pub create_if_not_exists : Job → Action W (Job × Bool)
  unfolding parse_target_id job_row insert_or_find
  create_if_not_exists job = do
    valid ← wrap "validate job: %w" (lift (Job.validate job))
    id ← wrap "parse job ID: %w" (lift (t.parse_uuid job.id))
    target_id ← lift (parse_target_id job.target_id)
    row ← job_row id target_id job
    insert_or_find row

  -- `updateStatus` behind the statement that it runs: a row that is not there is an error.
  abbrev updated : ℕ → Status
  updated affected = if affected == 0 then err record_not_found else ok tt

  -- `updateStatus`: the statement gets the identifier and the present.
  abbrev set_status : (String → Time → Action W ℕ) → String → Action W Unit
  set_status statement id = do
    job ← wrap "parse job ID: %w" (lift (t.parse_uuid id))
    affected ←
        wrap "update notification job: %w" (λ w. let (now, w1) = t.now w in statement job now w1)
    lift (updated affected)

  unfoldable pub mark_sent : String → Time → Action W Unit
  mark_sent id sent_at = set_status (λ job now. t.set_job_sent job Job.sent "" now sent_at) id

  unfoldable pub mark_failed : String → String → Action W Unit
  mark_failed id reason = set_status (λ job now. t.set_job_status job Job.failed reason now) id

  -- `DeleteNotificationJobsUpdatedBefore`; a limit that is not positive is 0 here.
  unfoldable pub delete_updated_before : Time → ℕ → Action W ℕ
  delete_updated_before cutoff limit = do
    lift (fail_if (ltb limit 1) (failure "cleanup limit must be positive"))
    wrap "delete stale notification jobs: %w" (t.delete_oldest_jobs cutoff limit)

  unfoldable pub job_repository : JobRepository W
  unfolding create_if_not_exists mark_sent mark_failed
  job_repository = record {
    create_if_not_exists = create_if_not_exists;
    mark_sent = mark_sent;
    mark_failed = mark_failed;
  }

  unfoldable pub cleanup_repository : CleanupRepository W
  unfolding delete_updated_before
  cleanup_repository = record { delete_updated_before = delete_updated_before }

-- ===== src/Repository/Jobs/Contract.antt =====
-- The job repository of internal/repository/postgres.go keeps what the executor relies on.
use crypto_price_alert.Base.{
  String, Bool, true, false, ◌≡◌, nat_eq, string_eq, ok, arith, Result-cases, inl, inr, ◌⊎◌,
}
use crypto_price_alert.Domain.Interval.{Interval, Time}
use crypto_price_alert.Domain.Provider.{MarketProvider}
use crypto_price_alert.Domain.Job
use crypto_price_alert.Domain.Job.{Job}
use crypto_price_alert.Repository.Tables.{Tables}
use crypto_price_alert.Repository.Jobs.{
  job_row, find_existing, insert_or_find, create_if_not_exists, job_repository, parse_target_id,
}
use crypto_price_alert.Scheduler.Target.Plan.{TargetExecutor}
use crypto_price_alert.Scheduler.Target.Coverage.{JobContract}

-- What the theorem relies on in the database: a row that is found has the columns it was asked for.
pub record Keyed {W : Type 0} (t : Tables W) : Type 0 where
  pub same_key :
      (target_id : String) (provider : MarketProvider) (symbol : String) (interval : Interval)
      (start : Time) (w : W) (row : Job)
      → (t.find_job target_id provider symbol interval start w).0 ≡ ok row
      → row.market_provider ≡ provider

module _ {W : Type 0} (t : Tables W) where
  -- What a created or found row has in common with the row that was asked for.
  abbrev Alike : Job → Job × Bool → Type 0
  Alike asked result =
      (result.0.market_provider ≡ asked.market_provider)
      × ((result.1 ≡ false) ⊎ (result.0.status ≡ asked.status))

  insert_or_find-Alike :
      (keyed : Keyed t) (row : Job) (w : W) (result : Job × Bool)
      → (insert_or_find t row w).0 ≡ ok result
      → Alike row result
  unfolding insert_or_find find_existing
  insert_or_find-Alike keyed row w result h =
      let found =
        t.find_job row.target_id row.market_provider row.symbol row.interval row.period_start in
      elim (Result-cases (t.insert_job row w).0) [
        | inr (error, i) ↦ absurd (ground arith)
        | inl (affected, i) ↦ elim (Result-cases (found (t.insert_job row w).1).0) [
          | inr (error, f) ↦ ground arith
          | inl (existing, f) ↦ ground (
            arith,
            keyed.same_key row.target_id row.market_provider row.symbol row.interval
                row.period_start (t.insert_job row w).1 existing f,
          )
        ]
      ]

  create_if_not_exists-Alike :
      (keyed : Keyed t) (job : Job) (w : W) (result : Job × Bool)
      → (create_if_not_exists t job w).0 ≡ ok result
      → Alike job result
  unfolding create_if_not_exists job_row
  create_if_not_exists-Alike keyed job w result h = elim (Result-cases (Job.validate job)) [
    | inr (error, v) ↦ absurd (ground arith)
    | inl (valid, v) ↦ elim (Result-cases (t.parse_uuid job.id)) [
      | inr (error, p) ↦ absurd (ground arith)
      | inl (id, p) ↦ elim (Result-cases (parse_target_id t job.target_id)) [
        | inr (error, q) ↦ absurd (ground arith)
        | inl (target, q) ↦
            insert_or_find-Alike keyed _ _ result (rw (v, p, q, create_if_not_exists) at h)
      ]
    ]
  ]

-- Over a database whose lookups answer by their key, the job repository is what the target executor
-- relies on: the row that it returns is of the provider that was asked for, and a row that it
-- reports as new has the status that was asked for.
pub job_repository-JobContract :
    {F W : Type 0} (e : TargetExecutor F W) (t : Tables W)
    → Keyed t
    → JobContract e (job_repository t)
unfolding job_repository
job_repository-JobContract e t keyed = record {
  same_provider = λ j j' new w h. (create_if_not_exists-Alike t keyed j w (j', new) h).0;
  new_status = λ j j' w h. ground (arith, (create_if_not_exists-Alike t keyed j w (j', true) h).1);
}

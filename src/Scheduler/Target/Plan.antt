-- ===== src/Scheduler/Target/Plan.antt =====
-- The eligible targets and phase 1 of internal/scheduler/target_executor.go: which job rows still
-- need a result this round.
use crypto_price_alert.Base.{
  String, Bool, true, false, not, ◌&&◌, ◌||◌, ◌==◌, contains, string_eq, Option, none, some, List,
  [], ◌∷◌, ◌++◌, Error, errorf, Result, ok, err, if◌then◌else◌,
}
use crypto_price_alert.Domain.Interval.{Interval}
use crypto_price_alert.Domain.Location.{Location}
use crypto_price_alert.Domain.Period.{Period}
use crypto_price_alert.Domain.Provider.{binance}
use crypto_price_alert.Domain.Candle.{Floats}
use crypto_price_alert.Domain.Job
use crypto_price_alert.Domain.Job.{Job}
use crypto_price_alert.Domain.Target.{AlertTarget}
use crypto_price_alert.Domain.AlertConfig.{AlertConfig}
use crypto_price_alert.Market.Provider.{ProviderResolver}
use crypto_price_alert.Notification.Notifier.{Notifier}
use crypto_price_alert.Repository.Ports.{
  Host, JobRepository, AlertTargetRepository, AlertConfigRepository,
}
use crypto_price_alert.Scheduler.Period.{PeriodEngine}
use crypto_price_alert.Scheduler.Executor.{Executor, new_job}
use crypto_price_alert.Scheduler.Target.Keys.{Key, add_key}

-- The fields of a `TargetExecutor`, with the operations that its calls reach.
pub record TargetExecutor (F W : Type 0) : Type 0 where
  pub floats : Floats F
  pub host : Host W
  pub periods : Option PeriodEngine
  pub providers : ProviderResolver F W
  pub jobs : JobRepository W
  pub targets : AlertTargetRepository W
  pub configs : AlertConfigRepository W
  pub notifiers : List (Notifier W)
  pub legacy : Option (Executor F W)
  pub location : Option Location

-- `eligibleTarget`
pub record Eligible : Type 0 where
  pub target : AlertTarget
  pub config : AlertConfig

-- `pendingJob`
pub record Pending : Type 0 where
  pub job : Job
  pub symbol : String

-- An eligible target with its pending jobs; `none` if the target was dropped.
pub record Planned : Type 0 where
  pub target : AlertTarget
  pub pending : Option (List Pending)

-- What phase 1 leaves: the plan, the needed keys and the first error.
pub record Preparation : Type 0 where
  pub planned : List Planned
  pub needed : List Key
  pub first_error : Option Error

-- `if firstErr == nil { firstErr = err }`
unfoldable pub keep_first : Option Error → Option Error → Option Error
keep_first none e = e
keep_first (some e) e' = some e

-- A target that ends up with an error, or eligible, or with neither.
pub record Judgement : Type 0 where
  pub error : Option Error
  pub eligible : List Eligible

-- What phase 1 does with one symbol: the target is dropped, the row has been sent before, or the row
-- is delivered this round.
pub data Claim : Type 0 where
  drop : Error → Claim
  settled : Claim
  open_job : Job → Claim

-- What phase 1 finds for the symbols of one target.
pub record Prepared : Type 0 where
  pub dropped : Bool
  pub pending : List Pending
  pub needed : List Key
  pub first_error : Option Error

module _ {F W : Type 0} (e : TargetExecutor F W) where
  abbrev with_default : AlertConfig → AlertConfig
  with_default c = record c {
    market_provider = if c.market_provider == "" then binance else c.market_provider;
  }

  -- The provider of an enabled configuration.
  unfoldable pub judge_provider : Interval → AlertTarget → AlertConfig → Judgement
  judge_provider interval target config =
      if not (e.providers.supports config.market_provider "" interval)
      then (elim (e.providers.get config.market_provider) [
        | err error ↦ record { error = some error; eligible = [] }
        | ok provider ↦ record {
          error = none;
          eligible = record { target = target; config = config } ∷ [];
        }
      ])
      else record { error = none; eligible = record { target = target; config = config } ∷ [] }

  -- The body of the loop over the targets, behind `GetAlertConfig`.
  unfoldable pub judge : Interval → AlertTarget → Result AlertConfig → Judgement
  unfolding judge_provider
  judge interval target (err error) = record { error = some error; eligible = [] }
  judge interval target (ok config) =
      if not config.enabled || not (contains config.intervals interval)
      then record { error = none; eligible = [] }
      else judge_provider interval target (with_default config)

  unfoldable pub collect :
      Interval
      → List AlertTarget
      → Option Error
      → List Eligible
      → W
      → (Option Error × List Eligible) × W
  unfolding judge keep_first
  collect interval [] first eligible w = ((first, eligible), w)
  collect interval (target ∷ rest) first eligible w =
      let (r, w1) = e.configs.get_alert_config target.id w in
      let j = judge interval target r in
      collect interval rest (keep_first first j.error) (eligible ++ j.eligible) w1

  -- The body of the inner loop of phase 1, for one symbol.
  unfoldable pub claim : Period → Interval → Eligible → String → W → Claim × W
  claim period interval et symbol w =
      let provider = et.config.market_provider in
      let (id, w1) = e.host.new_id w in
      let (r, w2) =
        e.jobs.create_if_not_exists (new_job id et.target.id provider symbol period period.interval)
          w1 in
      if not (e.providers.supports provider symbol interval)
      then (
        drop (
            errorf "market provider %q does not support %s/%s" (provider ∷ symbol ∷ interval ∷ [])),
        w,
      )
      else (
        elim r [
          | err error ↦ drop error
          | ok (job, is_new) ↦
              if not is_new && job.status == Job.sent then settled else open_job job
        ],
        w2,
      )

  -- The inner loop of phase 1; a drop ends it. `pending` holds the rows found so far.
  unfoldable pub prepare_symbols :
      Period
      → Interval
      → Eligible
      → List String
      → List Pending
      → List Key
      → Option Error
      → W
      → Prepared × W
  unfolding claim keep_first add_key
  prepare_symbols period interval et [] pending needed first w =
      (record { dropped = false; pending = pending; needed = needed; first_error = first }, w)
  prepare_symbols period interval et (symbol ∷ rest) pending needed first w =
      let (c, w1) = claim period interval et symbol w in
      elim c [
        | drop error ↦ (
          record {
            dropped = true;
            pending = pending;
            needed = needed;
            first_error = keep_first first (some error);
          },
          w1,
        )
        | settled ↦ prepare_symbols period interval et rest pending needed first w1
        | open_job job ↦
            prepare_symbols period interval et rest
              (pending ++ record { job = job; symbol = symbol } ∷ [])
              (add_key (et.config.market_provider, symbol) needed) first w1
      ]

  -- The outer loop of phase 1.
  unfoldable pub prepare_all : Period → Interval → List Eligible → Preparation → W → Preparation × W
  unfolding prepare_symbols
  prepare_all period interval [] prep w = (prep, w)
  prepare_all period interval (et ∷ rest) prep w =
      let (p, w1) =
        prepare_symbols period interval et et.config.symbols [] prep.needed prep.first_error w in
      prepare_all period interval rest
        (record {
          planned =
              prep.planned
              ++ record { target = et.target; pending = if p.dropped then none else some p.pending }
                ∷ [];
          needed = p.needed;
          first_error = p.first_error;
        })
        w1

  unfoldable pub prepare : Period → Interval → List Eligible → Option Error → W → Preparation × W
  unfolding prepare_all
  prepare period interval eligible first w =
      prepare_all period interval eligible
        (record { planned = []; needed = []; first_error = first }) w

-- ===== src/Server/Schedules.antt =====
-- cmd/server/main.go: the executors and the schedulers that the start of the program makes.
pub mod Start
use crypto_price_alert.Base.{
  String, Option, none, some, List, Result, ok, err, wrapped, not_positive, ◌>>=◌, if◌then◌else◌,
}
use crypto_price_alert.Domain.Interval.{Time}
use crypto_price_alert.Domain.Location.{Location}
use crypto_price_alert.Domain.Candle.{Floats}
use crypto_price_alert.Config.Settings.{Config, DatabaseConfig}
use crypto_price_alert.Market.Provider.{MarketDataProvider, ProviderResolver}
use crypto_price_alert.Notification.Notifier.{Notifier}
use crypto_price_alert.Repository.Ports.{
  Host, JobRepository, AlertTargetRepository, AlertConfigRepository, CleanupRepository,
}
use crypto_price_alert.Scheduler.Period.{PeriodEngine, new_period_engine}
use crypto_price_alert.Scheduler.Executor.{Executor, new_executor}
use crypto_price_alert.Scheduler.Target.{new_target_executor, execute}
use crypto_price_alert.Scheduler.Target.Plan.{TargetExecutor}
use crypto_price_alert.Scheduler.Tick.{new_scheduler, start}
use crypto_price_alert.Scheduler.Cleanup.{CleanupScheduler, new_cleanup_scheduler}

-- What `main` has made before the executors: the time zone, the repository by its interfaces, the
-- registry and its default provider.
pub record Foundation (F W : Type 0) : Type 0 where
  pub floats : Floats F
  pub host : Host W
  pub location : Location
  pub jobs : JobRepository W
  pub targets : AlertTargetRepository W
  pub configs : AlertConfigRepository W
  pub registry : ProviderResolver F W
  pub provider : MarketDataProvider F W

module _ {F W : Type 0} (f : Foundation F W) (c : Config) where
  -- The fields that `main` gives to `NewExecutor`.
  abbrev pub executor_of : PeriodEngine → List (Notifier W) → Executor F W
  executor_of periods notifiers = record {
    floats = f.floats;
    host = f.host;
    periods = some periods;
    market = f.provider;
    repository = f.jobs;
    notifiers = notifiers;
    symbols = c.market.symbols;
    location = some f.location;
  }

  -- The fields that `main` gives to `NewTargetExecutorWithResolver`.
  abbrev pub target_executor_of :
      PeriodEngine → List (Notifier W) → Executor F W → TargetExecutor F W
  target_executor_of periods notifiers legacy = record {
    floats = f.floats;
    host = f.host;
    periods = some periods;
    providers = f.registry;
    jobs = f.jobs;
    targets = f.targets;
    configs = f.configs;
    notifiers = notifiers;
    legacy = some legacy;
    location = some f.location;
  }

  -- `NewScheduler` with the settings, and its start
  unfoldable pub start_ticks : TargetExecutor F W → Result (String × (Time → W → W))
  unfolding new_scheduler start execute
  start_ticks e = do
    scheduler ←
        new_scheduler (some f.location) (execute e) c.schedule.tick_interval c.market.intervals
          c.schedule.active_from c.schedule.active_until
    start scheduler

  -- The part of `main` that makes the period engine, the two executors and the scheduler, with the
  -- channels of the alerts and of the targets; the result is what the cron library is given.
  unfoldable pub start_schedules :
      List (Notifier W) → List (Notifier W) → Result (String × (Time → W → W))
  start_schedules notifiers target_notifiers = do
    periods ← new_period_engine (some f.location) c.schedule.active_from c.schedule.active_until
    executor ← new_executor (executor_of periods notifiers)
    target_executor ← new_target_executor (target_executor_of periods target_notifiers executor)
    start_ticks target_executor

-- `startNotificationJobCleanup`; `none` is a cleanup that is switched off.
unfoldable pub start_cleanup :
    {W : Type 0}
    → DatabaseConfig
    → Location
    → CleanupRepository W
    → Result (Option (CleanupScheduler W))
unfolding new_cleanup_scheduler
start_cleanup database location repository =
    if not_positive database.notification_jobs_retention
    then ok none
    else (elim (new_cleanup_scheduler (some location) repository
        database.notification_jobs_retention) [
          | err e ↦ err (wrapped "initialize notification job cleanup scheduler: %w" e)
          | ok scheduler ↦ ok (some scheduler)
        ])

-- ===== src/Server/Schedules/Start.antt =====
-- With an accepted configuration, the start of cmd/server/main.go gets its schedulers.
use crypto_price_alert.Base.{
  ◌≡◌, refl, String, ◌==◌, string_eq, true, false, some, List, Result, absent, ok, ok?, Status,
  arith, Result-cases, Bool-cases, inl, inr, empty?, length, if◌then◌else◌,
}
use crypto_price_alert.Domain.Interval
use crypto_price_alert.Domain.Interval.{Interval, Time, duration}
use crypto_price_alert.Domain.Location.{Location}
use crypto_price_alert.Config.Settings.{Config}
use crypto_price_alert.Config.Check.{validate, normal_name, check_market, check_schedule}
use crypto_price_alert.Config.Accepted.{validate-starts}
use crypto_price_alert.Notification.Notifier.{Notifier}
use crypto_price_alert.Notification.Channels.{Channel}
use crypto_price_alert.Repository.Ports.{CleanupRepository}
use crypto_price_alert.Scheduler.Period.{PeriodEngine, new_period_engine}
use crypto_price_alert.Scheduler.Executor.{Executor, new_executor}
use crypto_price_alert.Scheduler.Target.{execute, new_target_executor}
use crypto_price_alert.Scheduler.Target.Plan.{TargetExecutor}
use crypto_price_alert.Scheduler.Tick.{interval_to_cron_spec, Scheduler, new_scheduler, start}
use crypto_price_alert.Scheduler.Cleanup.{new_cleanup_scheduler}
use crypto_price_alert.Server.Notifiers.{new_notifiers, new_target_notifiers, notifier_names}
use crypto_price_alert.Server.Notifiers.Start.{new_notifiers-Started}
use crypto_price_alert.Server.Schedules.{
  Foundation, executor_of, target_executor_of, start_ticks, start_schedules, start_cleanup,
}

one_minute : Interval.validate "1m" ≡ ok tt
unfolding Interval.validate string_eq
one_minute = refl

-- An interval that is supported has a specification for cron.
valid-spec : (i : Interval) → Interval.validate i ≡ ok tt → ok? (interval_to_cron_spec i) ≡ true
unfolding Interval.validate interval_to_cron_spec
valid-spec i h = elim (Result-cases (duration i)) [
  | inr (error, d) ↦ absurd (ground arith)
  | inl (length, d) ↦ rw (ok?, interval_to_cron_spec, d) refl
]

-- The cleanup can be started whatever the settings are.
ok-start_cleanup :
    {W : Type 0} (c : Config) (location : Location) (repository : CleanupRepository W)
    → ok? (start_cleanup c.database location repository) ≡ true
unfolding start_cleanup new_cleanup_scheduler
ok-start_cleanup c location repository = ground arith

-- The tick interval that the scheduler uses is supported, if the settings spell it in its normal form.
ticks-valid :
    (c : Config)
    → check_schedule c.schedule ≡ ok tt
    → normal_name c.schedule.tick_interval ≡ c.schedule.tick_interval
    → Interval.validate (if c.schedule.tick_interval == "" then "1m" else c.schedule.tick_interval)
      ≡ ok tt
unfolding check_schedule
ticks-valid c h spelled = elim (Bool-cases (c.schedule.tick_interval == "")) [
  | inl blank ↦ rw blank one_minute
  | inr given ↦ ground (arith, one_minute)
]

-- The channels of the targets are there, if those of the alerts are.
target_notifiers-filled :
    {W : Type 0} (channel : Channel W) (c : Config) (notifiers targets : List (Notifier W))
    → empty? notifiers ≡ false
    → new_target_notifiers channel c notifiers ≡ ok targets
    → empty? targets ≡ false
unfolding new_target_notifiers
target_notifiers-filled channel c notifiers targets filled h = ground arith

new_notifiers-filled :
    {W : Type 0} (channel : Channel W) (c : Config) (notifiers : List (Notifier W))
    → new_notifiers channel c ≡ ok notifiers
    → empty? notifiers ≡ false
unfolding new_notifiers
new_notifiers-filled channel c notifiers h = ground arith

module _ {W : Type 0} (location : Location) (executor : Time → Interval → W → Status × W)
    (ticks : Interval) (intervals : List Interval) (active_from active_until : String)
    (engine : PeriodEngine) where
  -- The scheduler that is made, and its start.
  scheduler-starts :
      new_period_engine (some location) active_from active_until ≡ ok engine
      → empty? intervals ≡ false
      → Interval.validate (if ticks == "" then "1m" else ticks) ≡ ok tt
      → (s : Scheduler W) × (new_scheduler
            (some location)
            executor
            ticks
            intervals
            active_from
            active_until
          ≡ ok s)
        × (ok? (start s) ≡ true)
  unfolding new_scheduler start
  scheduler-starts made filled valid = (
    record {
      executor = executor;
      tick_interval = if ticks == "" then "1m" else ticks;
      intervals = intervals;
      period_engine = engine;
    },
    rw (made, filled, valid) refl,
    ground (arith, valid-spec _ valid),
  )

new_executor-accepts :
    {F W : Type 0} (e : Executor F W)
    → absent e.periods ≡ false
    → empty? e.notifiers ≡ false
    → empty? e.symbols ≡ false
    → absent e.location ≡ false
    → new_executor e ≡ ok e
unfolding new_executor
new_executor-accepts e p n s l = rw (p, n, s, l) refl

new_target_executor-accepts :
    {F W : Type 0} (e : TargetExecutor F W)
    → absent e.periods ≡ false
    → empty? e.notifiers ≡ false
    → absent e.location ≡ false
    → new_target_executor e ≡ ok e
unfolding new_target_executor
new_target_executor-accepts e p n l = rw (p, n, l) refl

module _ (load : String → Result Location) (c : Config) (accepted : validate load c ≡ ok tt) where
  accepted_parts :
      (check_schedule c.schedule ≡ ok tt)
      × (empty? c.market.symbols ≡ false)
      × (empty? c.market.intervals ≡ false)
  unfolding validate check_market
  accepted_parts = (ground arith, ground arith, ground arith)

  module _ {F W : Type 0} (f : Foundation F W)
      (spelled : normal_name c.schedule.tick_interval ≡ c.schedule.tick_interval) where
    ok-start_ticks :
        (engine : PeriodEngine) (e : TargetExecutor F W)
        → new_period_engine (some f.location) c.schedule.active_from c.schedule.active_until
          ≡ ok engine
        → ok? (start_ticks f c e) ≡ true
    unfolding start_ticks
    ok-start_ticks engine e p =
        let (checked, symbols, intervals) = accepted_parts in
        let (s, made, started) =
          scheduler-starts f.location (execute e) c.schedule.tick_interval c.market.intervals
            c.schedule.active_from c.schedule.active_until engine p intervals
            (ticks-valid c checked spelled) in
        rw (start_ticks, made) started

    ok-start_schedules :
        (notifiers targets : List (Notifier W))
        → empty? notifiers ≡ false
        → empty? targets ≡ false
        → ok? (start_schedules f c notifiers targets) ≡ true
    unfolding start_schedules
    ok-start_schedules notifiers targets filled filled' =
        let (checked, symbols, intervals) = accepted_parts in
        elim (Result-cases
          (new_period_engine (some f.location) c.schedule.active_from c.schedule.active_until)) [
            | inr (error, p) ↦
                absurd (ground (arith, validate-starts load c accepted f.location, p))
            | inl (engine, p) ↦
                (let e = executor_of f c engine notifiers in
                  let t = target_executor_of f c engine targets e in
                  rw
                    (
                      ok?,
                      start_schedules,
                      p,
                      new_executor-accepts e refl filled symbols refl,
                      new_target_executor-accepts t refl filled' refl,
                    )
                    (ok-start_ticks engine t p))
          ]

-- What the start has of an accepted configuration: the channels with their names, what the cron library
-- gets for the ticks, and the cleanup.
pub record Running {F W : Type 0} (f : Foundation F W) (channel : Channel W)
    (cleanup : CleanupRepository W) (c : Config) : Type 0 where
  pub notifiers : List (Notifier W)
  pub made : new_notifiers channel c ≡ ok notifiers
  pub named : length (notifier_names c) ≡ length notifiers
  pub targets : List (Notifier W)
  pub targets_made : new_target_notifiers channel c notifiers ≡ ok targets
  pub ticks : ok? (start_schedules f c notifiers targets) ≡ true
  pub cleans : ok? (start_cleanup c.database f.location cleanup) ≡ true

-- With an accepted configuration, whose tick interval is spelled in its normal form, the channels
-- of the alerts and those of the targets can be made, there is one name for each of the former, and
-- with them the executors and the scheduler can be made and started, and so can the cleanup.
pub validate-Running :
    {F W : Type 0} (f : Foundation F W) (channel : Channel W) (cleanup : CleanupRepository W)
    (load : String → Result Location) (c : Config)
    → validate load c ≡ ok tt
    → normal_name c.schedule.tick_interval ≡ c.schedule.tick_interval
    → Running f channel cleanup c
validate-Running f channel cleanup load c accepted spelled =
    let started = new_notifiers-Started channel load c accepted in
    let filled = new_notifiers-filled channel c started.notifiers started.made in
    elim (Result-cases (new_target_notifiers channel c started.notifiers)) [
      | inr (error, t) ↦ absurd (ground (arith, started.targets, t))
      | inl (targets, t) ↦ record {
        notifiers = started.notifiers;
        made = started.made;
        named = started.named;
        targets = targets;
        targets_made = t;
        ticks =
            ok-start_schedules load c accepted f spelled started.notifiers targets filled
              (target_notifiers-filled channel c started.notifiers targets filled t);
        cleans = ok-start_cleanup c f.location cleanup;
      }
    ]

-- ===== src/Scheduler/Target.antt =====
-- internal/scheduler/target_executor.go: the executor for the targets, each with its configuration.
-- The phases of `Execute` are the functions below; `w` is the world, which every call may change.
pub mod Keys
pub mod Plan
pub mod Delivery
pub mod Coverage
pub mod Readiness
pub mod Marks
pub mod Rounds
use crypto_price_alert.Base.{
  ◌==◌, string_eq, none, some, List, [], ◌∷◌, ok, err, Status, empty?, if◌then◌else◌, ◌||◌, failure,
  fail_if, absent, Result, ◌>>◌,
}
use crypto_price_alert.Domain.Interval.{Interval, Time}
use crypto_price_alert.Domain.Period.{Period}
use crypto_price_alert.Domain.Target.{AlertTarget}
use crypto_price_alert.Scheduler.Period.{get_current_period}
use crypto_price_alert.Scheduler.Executor
use crypto_price_alert.Scheduler.Target.Keys.{sort_keys}
use crypto_price_alert.Scheduler.Target.Plan.{TargetExecutor, Preparation, collect, prepare}
use crypto_price_alert.Scheduler.Target.Delivery.{fetch_all, deliver_all, error_status}

-- `NewTargetExecutorWithResolver`, with its arguments in the fields of `e`
unfoldable pub new_target_executor :
    {F W : Type 0} → TargetExecutor F W → Result (TargetExecutor F W)
new_target_executor e = do
  fail_if (absent e.periods || empty? e.notifiers || absent e.location)
      (failure "invalid target executor settings")
  ok e

module _ {F W : Type 0} (e : TargetExecutor F W) where
  -- Phases 2 and 3, behind the preparation.
  unfoldable pub finish : Period → Preparation → W → Status × W
  finish period prep w =
      if empty? prep.needed
      then (error_status prep.first_error, w)
      else (let (outcomes, w1) = fetch_all e period (sort_keys prep.needed) w in
          let (first, w2) = deliver_all e period outcomes prep.planned prep.first_error w1 in
          (error_status first, w2))

  -- The enabled targets are there.
  unfoldable pub execute_targets : Period → Interval → List AlertTarget → W → Status × W
  unfolding finish
  execute_targets period interval targets w =
      let ((first, eligible), w1) = collect e interval targets none [] w in
      let (prep, w2) = prepare e period interval eligible first w1 in finish period prep w2

  -- `Execute`. The mutex makes the calls of one executor follow one another.
  unfoldable pub execute : Time → Interval → W → Status × W
  unfolding execute_targets
  execute now interval w = elim (get_current_period e.periods now interval) [
    | none ↦ (ok tt, w)
    | some period ↦
        let (r, w1) = e.targets.list_enabled_targets w in
        elim r [
          | err error ↦ (err error, w1)
          | ok [] ↦ elim e.legacy [
            | none ↦ (ok tt, w1)
            | some legacy ↦ Executor.execute legacy now interval w1
          ]
          | ok (target ∷ more) ↦ execute_targets period interval (target ∷ more) w1
        ]
  ]

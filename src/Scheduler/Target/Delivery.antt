-- ===== src/Scheduler/Target/Delivery.antt =====
-- Phases 2 and 3 of internal/scheduler/target_executor.go: each needed candle is fetched once, and
-- each target gets one message.
use crypto_price_alert.Base.{
  ◌==◌, string_eq, pair_eq, Option, none, some, List, [], ◌∷◌, map, Error, ok, err, Status,
  if◌then◌else◌,
}
use crypto_price_alert.Domain.Period.{Period, Message}
use crypto_price_alert.Domain.Target.{AlertTarget}
use crypto_price_alert.Notification.Message.{PriceResult, unavailable, build_message}
use crypto_price_alert.Notification.Notifier.{Notifier, send_to_target}
use crypto_price_alert.Scheduler.Executor.{Item, result_of, mark_all}
use crypto_price_alert.Scheduler.Target.Keys.{Key}
use crypto_price_alert.Scheduler.Target.Plan.{TargetExecutor, Pending, Planned, keep_first}

-- `outcomes`, a map with one entry for each key that was fetched.
abbrev pub Outcomes : Type 0 → Type 0
Outcomes F = List (Key × PriceResult F)

unfoldable pub outcome_at : {F : Type 0} → Key → Outcomes F → Option (PriceResult F)
outcome_at key [] = none
outcome_at key ((k, r) ∷ rest) = if k == key then some r else outcome_at key rest

unfoldable pub error_status : Option Error → Status
error_status none = ok tt
error_status (some e) = err e

module _ {F W : Type 0} (e : TargetExecutor F W) where
  -- The result of one key.
  unfoldable pub fetch_one : Period → Key → W → PriceResult F × W
  unfolding result_of
  fetch_one period (provider, symbol) w = elim (e.providers.get provider) [
    | err error ↦ (unavailable symbol, w)
    | ok get_kline ↦
        let (candle, w1) = get_kline symbol period.interval period.start period.end w in
        (result_of e.floats symbol period.interval period candle, w1)
  ]

  unfoldable pub fetch_all : Period → List Key → W → Outcomes F × W
  unfolding fetch_one
  fetch_all period [] w = ([], w)
  fetch_all period (key ∷ keys) w =
      let (r, w1) = fetch_one period key w in
      let (rest, w2) = fetch_all period keys w1 in ((key, r) ∷ rest, w2)

  -- A pending job with the outcome of its key, and the items of one target.
  abbrev pub item_of : Outcomes F → Pending → Item F
  item_of outcomes p = record {
    job = p.job;
    result = elim (outcome_at (p.job.market_provider, p.symbol) outcomes) [
      | none ↦ unavailable p.symbol
      | some r ↦ r
    ];
  }

  unfoldable pub items_of : Outcomes F → List Pending → List (Item F)
  unfolding outcome_at
  items_of outcomes [] = []
  items_of outcomes (p ∷ rest) = item_of outcomes p ∷ items_of outcomes rest

  -- Every notifier is tried, and the first error is kept.
  unfoldable pub send_all :
      List (Notifier W) → AlertTarget → Message → Option Error → W → Option Error × W
  unfolding keep_first send_to_target
  send_all [] target message first w = (first, w)
  send_all (n ∷ ns) target message first w =
      let (r, w1) = send_to_target n target message w in
      send_all ns target message
        (keep_first first (elim r [ ok u ↦ none | err error ↦ some error ])) w1

  -- `deliverToTarget` from the items on
  unfoldable pub deliver_items : Period → AlertTarget → List (Item F) → W → Status × W
  unfolding send_all mark_all error_status
  deliver_items period target [] w = (ok tt, w)
  deliver_items period target (item ∷ items) w =
      elim (build_message e.floats period (map (λ x. x.result) (item ∷ items)) e.location) [
        | err error ↦ (err error, w)
        | ok message ↦
            let (send_error, w1) = send_all e.notifiers target message none w in
            (error_status send_error, mark_all e.host e.jobs send_error (item ∷ items) w1)
      ]

  unfoldable pub deliver_to_target :
      Period → Outcomes F → AlertTarget → List Pending → W → Status × W
  unfolding items_of deliver_items
  deliver_to_target period outcomes target pending w =
      deliver_items period target (items_of outcomes pending) w

  -- Phase 3: the targets in their order, without the dropped ones.
  unfoldable pub deliver_all :
      Period → Outcomes F → List Planned → Option Error → W → Option Error × W
  unfolding keep_first
  deliver_all period outcomes [] first w = (first, w)
  deliver_all period outcomes (p ∷ rest) first w = elim p.pending [
    | none ↦ deliver_all period outcomes rest first w
    | some pending ↦
        let (r, w1) = deliver_to_target period outcomes p.target pending w in
        deliver_all period outcomes rest
          (keep_first first (elim r [ ok u ↦ none | err error ↦ some error ])) w1
  ]

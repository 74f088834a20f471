-- ===== src/Scheduler/Executor.antt =====
-- internal/scheduler/executor.go: the executor for the symbols of the configuration, used while no
-- target is enabled.
use crypto_price_alert.Base.{
  String, ◌==◌, string_eq, not, ◌&&◌, Option, none, some, List, [], ◌∷◌, map, Error, Result, ok,
  err, Status, ◌||◌, failure, fail_if, empty?, absent, ◌>>◌, ◌>>=◌, if◌then◌else◌,
}
use crypto_price_alert.Domain.Interval.{Interval, Time}
use crypto_price_alert.Domain.Location.{Location}
use crypto_price_alert.Domain.Period.{Period, Message}
use crypto_price_alert.Domain.Provider.{binance}
use crypto_price_alert.Domain.Candle.{Floats, Candle}
use crypto_price_alert.Domain.Job
use crypto_price_alert.Domain.Job.{Job}
use crypto_price_alert.Market.Provider.{MarketDataProvider}
use crypto_price_alert.Notification.Message.{PriceResult, priced, unavailable, build_message}
use crypto_price_alert.Notification.Notifier.{Notifier}
use crypto_price_alert.Repository.Ports.{Host, JobRepository}
use crypto_price_alert.Scheduler.Period.{PeriodEngine, get_current_period}
use crypto_price_alert.Service.Change.{calculate_change}

-- A job row and the result that its delivery reports.
pub record Item (F : Type 0) : Type 0 where
  pub job : Job
  pub result : PriceResult F

module _ {F : Type 0} where
  -- The candle that was fetched, as the result of its symbol.
  unfoldable pub result_of :
      Floats F → String → Interval → Period → Result (Candle F) → PriceResult F
  result_of fl symbol interval period (err e) = unavailable symbol
  result_of fl symbol interval period (ok candle) =
      elim (calculate_change fl candle interval period) [
        | err e ↦ unavailable symbol
        | ok change ↦ priced change
      ]

-- The row that is asked of the repository for one symbol of one period.
abbrev pub new_job : String → String → String → String → Period → Interval → Job
new_job id target provider symbol period interval = record {
  id = id;
  target_id = target;
  symbol = symbol;
  market_provider = provider;
  interval = interval;
  period_start = period.start;
  period_end = period.end;
  status = Job.pending;
  error_message = "";
  sent_at = none;
  created_at = 0;
  updated_at = 0;
}

module _ {F W : Type 0} where
  -- One round of the marks that end a delivery; their errors are dropped. The source marks in
  -- parallel goroutines in one executor and in order in the other; the marks are of different rows.
  unfoldable pub mark_all : Host W → JobRepository W → Option Error → List (Item F) → W → W
  mark_all host jobs send_error [] w = w
  mark_all host jobs none (item ∷ items) w =
      let (t, w1) = host.now w in mark_all host jobs none items (jobs.mark_sent item.job.id t w1).1
  mark_all host jobs (some e) (item ∷ items) w =
      mark_all host jobs (some e) items (jobs.mark_failed item.job.id (host.error_text e) w).1

-- The fields of an `Executor`, with the operations that its calls reach.
pub record Executor (F W : Type 0) : Type 0 where
  pub floats : Floats F
  pub host : Host W
  pub periods : Option PeriodEngine
  pub market : MarketDataProvider F W
  pub repository : JobRepository W
  pub notifiers : List (Notifier W)
  pub symbols : List String
  pub location : Option Location

-- `NewExecutor`, with its arguments in the fields of `e`
unfoldable pub new_executor : {F W : Type 0} → Executor F W → Result (Executor F W)
new_executor e = do
  fail_if (absent e.periods || empty? e.notifiers || empty? e.symbols || absent e.location)
      (failure "invalid executor settings")
  ok e

module _ {F W : Type 0} (e : Executor F W) where
  -- The row of one symbol is created or found. `none` stands for a row that has been sent.
  unfoldable pub claim_symbol : Period → Interval → String → W → Result (Option Job) × W
  claim_symbol period interval symbol w =
      let (id, w1) = e.host.new_id w in
      let (r, w2) =
        e.repository.create_if_not_exists (new_job id "" binance symbol period interval) w1 in
      elim r [
        | err error ↦ (err error, w2)
        | ok (job, is_new) ↦
            (ok (if not is_new && job.status == Job.sent then none else some job), w2)
      ]

  -- The first loop: a failing repository ends it.
  unfoldable pub gather : Period → Interval → List String → W → Result (List (Item F)) × W
  unfolding claim_symbol result_of
  gather period interval [] w = (ok [], w)
  gather period interval (symbol ∷ rest) w =
      let (r, w1) = claim_symbol period interval symbol w in
      elim r [
        | err error ↦ (err error, w1)
        | ok none ↦ gather period interval rest w1
        | ok (some job) ↦
            let (candle, w2) = e.market symbol interval period.start period.end w1 in
            let (items, w3) = gather period interval rest w2 in
            (
              items >>= λ xs. ok (
                  record { job = job; result = result_of e.floats symbol interval period candle }
                  ∷ xs),
              w3,
            )
      ]

  -- Every notifier is tried, and the last error is kept.
  unfoldable pub send_all : List (Notifier W) → Message → Option Error → W → Option Error × W
  send_all [] message send_error w = (send_error, w)
  send_all (n ∷ ns) message send_error w =
      let (r, w1) = n.send message w in
      send_all ns message (elim r [ ok u ↦ send_error | err error ↦ some error ]) w1

  abbrev pub status_of : Option Error → Status
  status_of none = ok tt
  status_of (some error) = err error

  unfoldable pub deliver_items : Period → List (Item F) → W → Status × W
  unfolding send_all mark_all
  deliver_items period [] w = (ok tt, w)
  deliver_items period (item ∷ items) w =
      elim (build_message e.floats period (map (λ x. x.result) (item ∷ items)) e.location) [
        | err error ↦ (err error, w)
        | ok message ↦
            let (send_error, w1) = send_all e.notifiers message none w in
            (status_of send_error, mark_all e.host e.repository send_error (item ∷ items) w1)
      ]

  unfoldable pub execute : Time → Interval → W → Status × W
  unfolding gather deliver_items
  execute now interval w = elim (get_current_period e.periods now interval) [
    | none ↦ (ok tt, w)
    | some period ↦
        let (r, w1) = gather period interval e.symbols w in
        elim r [ err error ↦ (err error, w1) | ok items ↦ deliver_items period items w1 ]
  ]

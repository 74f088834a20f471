-- ===== src/Tests/Rounds.antt =====
-- A round of the target executor in the world of World, and its theorems there.
use crypto_price_alert.Base.{
  ℕ, ◌*◌, ◌+◌, ◌≡◌, ◌≢◌, refl, String, true, string_eq, pair_eq, nat_eq, none, some, List, [], ◌∷◌,
  map, ok?, All, Distinct, contains, if◌then◌else◌,
}
use crypto_price_alert.Base.Text.{decimal}
use crypto_price_alert.Domain.Interval.{hour, day, duration}
use crypto_price_alert.Domain.Job
use crypto_price_alert.Domain.Job.{Job}
use crypto_price_alert.Domain.Period.{Period}
use crypto_price_alert.Notification.Message.{unavailable, build_message}
use crypto_price_alert.Market.Provider.{static_resolver}
use crypto_price_alert.Notification.Notifier.{send_to_target}
use crypto_price_alert.Service.Change.{calculate_change}
use crypto_price_alert.Scheduler.Period.{get_current_period}
use crypto_price_alert.Scheduler.Executor.{result_of, mark_all}
use crypto_price_alert.Scheduler.Target.{execute_targets, execute}
use crypto_price_alert.Scheduler.Target.Keys.{sort_keys}
use crypto_price_alert.Scheduler.Target.Plan.{keep_first, Eligible, Pending, prepare, collect}
use crypto_price_alert.Scheduler.Target.Delivery.{
  send_all, Outcomes, fetch_all, deliver_to_target, deliver_all, items_of, error_status,
}
use crypto_price_alert.Scheduler.Target.Readiness.{IsServed, rows, pending-IsServed}
use crypto_price_alert.Scheduler.Target.Marks.{status-deliver_to_target}
use crypto_price_alert.Scheduler.Target.Rounds.{RowsSent, SymbolSent, all_sent-quiet}
use crypto_price_alert.Tests.World.{
  World, start, jobs, find_row, floats, target, config, executor, status, status_in, utc,
  jobs-JobContract, executor-RowContract,
}

abbrev period : Period
period = record { interval = "1h"; start = 9 * day + 9 * hour; end = 9 * day + 10 * hour }

abbrev eligible : List Eligible
eligible =
    record { target = target "a"; config = record (config "a") { market_provider = "binance" } }
    ∷ record { target = target "b"; config = record (config "b") { market_provider = "binance" } }
    ∷ []

pending-IsServed_example :
    let prep = (prepare executor period "1h" eligible none start).0 in
    let outcomes = (fetch_all executor period (sort_keys prep.needed) start).0 in
    All (λ p. All (IsServed outcomes) (rows p)) prep.planned × Distinct (map (λ o. o.0) outcomes)
pending-IsServed_example =
    pending-IsServed executor period "1h" eligible none start start jobs-JobContract

-- Both targets are sent one message in the first round, and none in the second.
first_round : (execute executor (9 * day + 10 * hour) "1h" start).1.log ≡ "b" ∷ "a" ∷ []
unfolding execute collect prepare deliver_to_target sort_keys fetch_all build_message find_row jobs
    decimal string_eq pair_eq nat_eq duration get_current_period static_resolver calculate_change
    error_status result_of mark_all send_to_target send_all items_of deliver_all keep_first
first_round = refl

abbrev row : String → String → Job
row id symbol = record {
  id = id;
  target_id = "a";
  symbol = symbol;
  market_provider = "binance";
  interval = "1h";
  period_start = period.start;
  period_end = period.end;
  status = Job.pending;
  error_message = "";
  sent_at = none;
  created_at = 0;
  updated_at = 0;
}

abbrev two_rows : World
two_rows = record { rows = row "1" "ETH" ∷ row "2" "BTC" ∷ []; count = 3; log = [] }

abbrev pending_of : String → String → Pending
pending_of id symbol = record { job = row id symbol; symbol = symbol }

abbrev outcomes_of_two : Outcomes ℕ
outcomes_of_two =
    (("binance", "ETH"), unavailable "ETH") ∷ (("binance", "BTC"), unavailable "BTC") ∷ []

built :
    ok? (
      build_message floats period
        (map
          (λ x. x.result)
          (items_of executor outcomes_of_two (pending_of "1" "ETH" ∷ pending_of "2" "BTC" ∷ [])))
        (some utc))
    ≡ true
unfolding build_message items_of string_eq nat_eq pair_eq
built = refl

here : (status two_rows "1" ≢ none) × (status two_rows "2" ≢ none)
unfolding status_in string_eq
here = ((λ p. cc), (λ p. cc))

status-deliver_to_target_example :
    status
      (deliver_to_target executor period outcomes_of_two
        (target "a")
        (pending_of "1" "ETH" ∷ pending_of "2" "BTC" ∷ [])
        two_rows).1
      "2"
    ≡ (if contains {A = String} ("1" ∷ "2" ∷ []) "2"
        then some (
            if ok?
              (deliver_to_target executor period outcomes_of_two
                (target "a")
                (pending_of "1" "ETH" ∷ pending_of "2" "BTC" ∷ [])
                two_rows).0
            then Job.sent
            else Job.failed)
        else status two_rows "2")
status-deliver_to_target_example =
    status-deliver_to_target executor status executor-RowContract period outcomes_of_two
      (target "a") (pending_of "1" "ETH") (pending_of "2" "BTC" ∷ []) two_rows "2" built
      (here.0, (here.1, tt))

-- The rows of a target whose messages of the period have been sent.
abbrev sent_row : String → Job
sent_row symbol = record {
  id = symbol;
  target_id = "a";
  symbol = symbol;
  market_provider = "binance";
  interval = "1h";
  period_start = period.start;
  period_end = period.end;
  status = Job.sent;
  error_message = "";
  sent_at = none;
  created_at = 0;
  updated_at = 0;
}

abbrev sent_rows : List Job
sent_rows = sent_row "ETH" ∷ sent_row "BTC" ∷ []

abbrev later : World
later = record start { rows = sent_rows }

abbrev Done : World → Type 0
Done w = w.rows ≡ sent_rows

abbrev chosen : List Eligible
chosen =
    record { target = target "a"; config = record (config "a") { market_provider = "binance" } }
    ∷ []

choice : collect executor "1h" (target "a" ∷ []) none [] later ≡ ((none, chosen), later)
unfolding collect keep_first string_eq static_resolver
choice = refl

eth-SymbolSent :
    SymbolSent executor period "1h" Done
      (record { target = target "a"; config = record (config "a") { market_provider = "binance" } })
      "ETH"
unfolding jobs find_row string_eq nat_eq static_resolver
eth-SymbolSent = record {
  supported = refl;
  row = λ id w. sent_row "ETH";
  found = λ id w here. rw here refl;
  sent_before = λ id w here. refl;
  still = λ id w here. rw here refl;
}

btc-SymbolSent :
    SymbolSent executor period "1h" Done
      (record { target = target "a"; config = record (config "a") { market_provider = "binance" } })
      "BTC"
unfolding jobs find_row string_eq nat_eq static_resolver
btc-SymbolSent = record {
  supported = refl;
  row = λ id w. sent_row "BTC";
  found = λ id w here. rw here refl;
  sent_before = λ id w here. refl;
  still = λ id w here. rw here refl;
}

chosen-RowsSent : RowsSent executor period "1h" Done chosen
chosen-RowsSent = record {
  new_id = λ w here. here;
  symbols = ((eth-SymbolSent, (btc-SymbolSent, tt)), tt);
}

all_sent-quiet_example :
    execute_targets executor period "1h" (target "a" ∷ []) later
    ≡ (error_status none, (prepare executor period "1h" chosen none later).1)
all_sent-quiet_example =
    all_sent-quiet executor period "1h" Done (target "a" ∷ []) none chosen later later choice
      chosen-RowsSent refl

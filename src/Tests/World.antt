-- ===== src/Tests/World.antt =====
-- A world in memory: job rows, a counter for identifiers, and the messages that were sent.
use crypto_price_alert.Base.{
  ℕ, ◌+◌, ◌-◌, ◌*◌, ◌/◌, ◌%◌, ◌≡◌, ◌≢◌, refl, String, Bool, true, false, ◌==◌, string_eq, nat_eq,
  ◌&&◌, Option, none, some, List, [], ◌∷◌, Result, ok, ltb, leb, arith, if◌then◌else◌,
}
use crypto_price_alert.Base.Text.{decimal}
use crypto_price_alert.Domain.Interval.{day}
use crypto_price_alert.Domain.Location.{Location}
use crypto_price_alert.Domain.Period.{Message}
use crypto_price_alert.Domain.Target.{AlertTarget}
use crypto_price_alert.Domain.AlertConfig.{AlertConfig}
use crypto_price_alert.Domain.Candle.{Floats}
use crypto_price_alert.Domain.Job
use crypto_price_alert.Domain.Job.{Job, JobStatus}
use crypto_price_alert.Market.Provider.{MarketDataProvider, static_resolver}
use crypto_price_alert.Notification.Notifier.{Notifier, send_to_target}
use crypto_price_alert.Repository.Ports.{
  Host, JobRepository, AlertTargetRepository, AlertConfigRepository,
}
use crypto_price_alert.Scheduler.Period.{PeriodEngine}
use crypto_price_alert.Scheduler.Target.Plan.{TargetExecutor}
use crypto_price_alert.Scheduler.Target.Coverage.{JobContract}
use crypto_price_alert.Scheduler.Target.Marks.{RowContract}

pub record World : Type 0 where
  pub rows : List Job
  pub count : ℕ
  pub log : List String

abbrev pub start : World
start = record { rows = []; count = 1; log = [] }

abbrev same_row : Job → Job → Bool
same_row j r =
    r.target_id == j.target_id
    && (r.market_provider == j.market_provider
        && (r.symbol == j.symbol && (r.interval == j.interval && r.period_start == j.period_start)))

unfoldable pub find_row : Job → List Job → Option Job
find_row j [] = none
find_row j (r ∷ rs) = if same_row j r then some r else find_row j rs

unfoldable pub set_status : String → JobStatus → List Job → List Job
set_status id status [] = []
set_status id status (r ∷ rs) =
    (if r.id == id then record r { status = status } else r) ∷ set_status id status rs

unfoldable pub status_in : List Job → String → Option JobStatus
status_in [] id = none
status_in (r ∷ rs) id = if r.id == id then some r.status else status_in rs id

abbrev pub status : World → String → Option JobStatus
status w id = status_in w.rows id

create_row : Job → World → Result (Job × Bool) × World
unfolding find_row
create_row j w = elim (find_row j w.rows) [
  | some r ↦ (ok (r, false), w)
  | none ↦ (ok (j, true), record w { rows = j ∷ w.rows })
]

unfoldable pub jobs : JobRepository World
unfolding create_row set_status
jobs = record {
  create_if_not_exists = create_row;
  mark_sent = λ id t w. (ok tt, record w { rows = set_status id Job.sent w.rows });
  mark_failed = λ id reason w. (ok tt, record w { rows = set_status id Job.failed w.rows });
}

abbrev pub host : Host World
host = record {
  new_id = λ w. (decimal w.count, record w { count = w.count + 1 });
  now = λ w. (w.count, w);
  error_text = λ e. "error";
}

-- Prices are whole numbers here.
abbrev pub floats : Floats ℕ
floats = record {
  zero_f = 0;
  one_f = 1;
  hundred = 100;
  thousand = 1000;
  lt = ltb;
  le = leb;
  sub = λ a b. a - b;
  mul = λ a b. a * b;
  div = λ a b. a / b;
  fixed = λ k x. decimal x;
  signed = λ x. decimal x;
}

-- A market that doubles every price.
abbrev pub market : MarketDataProvider ℕ World
market symbol interval start end w = (
  ok (record {
    symbol = symbol;
    open_price = 10;
    high = 20;
    low = 10;
    close = 20;
    volume = 5;
    open_time = start;
    close_time = end;
  }),
  w,
)

abbrev pub notifier : Notifier World
notifier = record {
  target_provider = none;
  to_target = some (λ target message w. (ok tt, record w { log = target.id ∷ w.log }));
  send = λ message w. (ok tt, w);
}

abbrev pub utc : Location
utc = record { day_start = λ t. t - t % day; clock_text = λ t. "hh:mm"; name = "UTC" }

abbrev pub engine : PeriodEngine
engine = record { location = some utc; active_from = 0; active_until = 1439 }

abbrev pub target : String → AlertTarget
target id = record {
  id = id;
  provider = "telegram";
  tenant_id = "default";
  external_chat_id = id;
  display_name = "";
  creator_user_id = "7";
  enabled = true;
  created_at = 0;
  updated_at = 0;
}

abbrev pub config : String → AlertConfig
config id = record {
  target_id = id;
  market_provider = "";
  enabled = true;
  symbols = "ETH" ∷ "BTC" ∷ [];
  intervals = "1h" ∷ [];
  version = 0;
  updated_by = "7";
  updated_at = 0;
}

abbrev pub targets : AlertTargetRepository World
targets = record {
  find_or_create_target = λ t w. (ok t, w);
  get_target = λ p tenant chat w. (ok (target chat), w);
  list_enabled_targets = λ w. (ok (target "a" ∷ target "b" ∷ []), w);
  count_targets = λ w. (ok 2, w);
}

abbrev pub configs : AlertConfigRepository World
configs = record {
  create_alert_config = λ c w. (ok tt, w);
  get_alert_config = λ id w. (ok (config id), w);
  replace_alert_config = λ c v w. (ok c, w);
  set_alert_config_enabled = λ id on by v w. (ok (config id), w);
}

abbrev pub executor : TargetExecutor ℕ World
executor = record {
  floats = floats;
  host = host;
  periods = some engine;
  providers = static_resolver (some market);
  jobs = jobs;
  targets = targets;
  configs = configs;
  notifiers = notifier ∷ [];
  legacy = none;
  location = some utc;
}

find_row-provider :
    (j : Job) (rows : List Job) (r : Job)
    → find_row j rows ≡ some r
    → r.market_provider ≡ j.market_provider
unfolding find_row
find_row-provider j [] r h = absurd (ground arith)
find_row-provider j (x ∷ rows) r h = ground (arith, find_row-provider j rows r)

pub jobs-JobContract : JobContract executor jobs
unfolding jobs find_row
jobs-JobContract = record {
  same_provider = λ j j' new w h. ground (arith, find_row-provider j w.rows j');
  new_status = λ j j' w h. ground arith;
}

status-set_ne :
    (id j : String) (st : JobStatus) (rows : List Job)
    → id ≢ j
    → status_in (set_status id st rows) j ≡ status_in rows j
unfolding set_status status_in
status-set_ne id j st [] h = refl
status-set_ne id j st (r ∷ rows) h = ground (arith, status-set_ne id j st rows h)

status-set_self :
    (id : String) (st : JobStatus) (rows : List Job)
    → status_in rows id ≢ none
    → status_in (set_status id st rows) id ≡ some st
unfolding set_status status_in
status-set_self id st [] h = absurd (h refl)
status-set_self id st (r ∷ rows) h = ground (arith, status-set_self id st rows)

status-set_status :
    (id j : String) (st : JobStatus) (rows : List Job)
    → status_in rows id ≢ none
    → status_in (set_status id st rows) j ≡ (if id == j then some st else status_in rows j)
status-set_status id j st rows h =
    ground (arith, status-set_ne id j st rows, status-set_self id st rows h)

sent-status :
    (t : AlertTarget) (m : Message) (j : String) (w : World)
    → status (send_to_target notifier t m w).1 j ≡ status w j
unfolding send_to_target
sent-status t m j w = refl

pub executor-RowContract : RowContract executor status
unfolding jobs
executor-RowContract = record {
  after_sent = λ id j t w h. status-set_status id j Job.sent w.rows h;
  after_failed = λ id j reason w h. status-set_status id j Job.failed w.rows h;
  after_now = λ j w. refl;
  after_send = ((λ t m j w. sent-status t m j w), tt);
}

-- ===== src/Tests/Databases.antt =====
-- A database that holds the row of one configuration, and the theorems of the repository there.
use crypto_price_alert.Base.{
  ℕ, ◌≡◌, ◌≢◌, refl, true, false, string_eq, nat_eq, [], ◌∷◌, record_not_found, ok, err, ok?, arith,
  if◌then◌else◌, none, Bool,
}
use crypto_price_alert.Base.Action.{Action}
use crypto_price_alert.Domain.Interval
use crypto_price_alert.Domain.Provider
use crypto_price_alert.Domain.AlertConfig
use crypto_price_alert.Domain.AlertConfig.{AlertConfig}
use crypto_price_alert.Domain.InboundEvent
use crypto_price_alert.Domain.InboundEvent.{InboundEvent}
use crypto_price_alert.Repository.Targets.{claim_inbound_event}
use crypto_price_alert.Repository.Targets.Claims.{UniqueEvents, claim_inbound_event-once}
use crypto_price_alert.Repository.Tables.{Tables, ConfigRow}
use crypto_price_alert.Repository.Jobs.{job_repository}
use crypto_price_alert.Repository.Jobs.Contract.{Keyed, job_repository-JobContract}
use crypto_price_alert.Repository.Configs.{
  replace_alert_config, replacement, store, update_row, rewrite_children, insert_config_children,
  insert_symbols, insert_intervals,
}
use crypto_price_alert.Repository.Configs.Versions.{
  Transactional, replace_alert_config-conflict, Replaced, replace_alert_config-Replaced,
}
use crypto_price_alert.Scheduler.Target.Coverage.{JobContract}
use crypto_price_alert.Tests.World.{World, executor, config}

abbrev nothing : {W A : Type 0} → Action W A
nothing w = (err record_not_found, w)

abbrev transact : {W A : Type 0} → Action W A → Action W A
transact m w = ((m w).0, elim (m w).0 [ ok a ↦ (m w).1 | err e ↦ w ])

abbrev tables : {W : Type 0} → Action W ConfigRow → (ConfigRow → Action W ℕ) → Tables W
tables find update = record {
  parse_uuid = λ text. ok text;
  now = λ w. (9, w);
  insert_job = λ job w. (ok 1, w);
  find_job = λ id provider symbol interval start. nothing;
  set_job_sent = λ id status reason now sent. nothing;
  set_job_status = λ id status reason now. nothing;
  delete_oldest_jobs = λ cutoff limit w. (ok 0, w);
  insert_target = λ target w. (ok 1, w);
  find_target = λ provider tenant chat. nothing;
  enabled_targets = λ w. (ok [], w);
  count_targets = λ w. (ok 0, w);
  insert_config = λ row w. (ok tt, w);
  find_config = λ id. find;
  symbols_of = λ id w. (ok ("BTC" ∷ []), w);
  intervals_of = λ id w. (ok ("1h" ∷ []), w);
  update_config = λ id expected row. update row;
  delete_symbols = λ id w. (ok tt, w);
  delete_intervals = λ id w. (ok tt, w);
  insert_symbol = λ id symbol w. (ok tt, w);
  insert_interval = λ id interval w. (ok tt, w);
  insert_event = λ event w. (ok 1, w);
  set_event_processed = λ provider id time w. (ok 1, w);
  set_event_failed = λ provider id reason w. (ok 1, w);
  transaction = transact;
}

-- The world is the row.
abbrev database : Tables ConfigRow
database = tables (λ w. (ok w, w)) (λ row w. (ok 1, row))

database-Transactional : Transactional database (λ w. w)
database-Transactional = record {
  rolled_back = λ m w error h. rw h (refl, refl);
  committed = λ m w a h. h;
}

abbrev row : ConfigRow
row = record {
  target_id = "a";
  market_provider = "binance";
  enabled = true;
  version = 4;
  updated_by = "7";
  updated_at = 1;
}

abbrev asked : AlertConfig
asked = record (config "a") { market_provider = "binance" }

asked_valid : AlertConfig.validate asked ≡ ok tt
unfolding AlertConfig.validate AlertConfig.check_symbols AlertConfig.check_intervals
    Provider.validate Interval.validate string_eq
asked_valid = refl

four_three : ◌≢◌ {A = ℕ} 4 3
four_three p = absurd (omega arith)

replace_alert_config-conflict_example :
    (ok? (replace_alert_config database asked 3 row).0 ≡ false)
    × ((replace_alert_config database asked 3 row).1 ≡ row)
replace_alert_config-conflict_example =
    replace_alert_config-conflict database (λ w. w) database-Transactional asked 3 "a" row row
      asked_valid refl refl four_three

abbrev answer : AlertConfig
answer = record asked { version = 5; updated_at = 9 }

answered : (replace_alert_config database asked 4 row).0 ≡ ok answer
unfolding replace_alert_config replacement store update_row rewrite_children insert_config_children
    insert_symbols insert_intervals AlertConfig.validate AlertConfig.check_symbols
    AlertConfig.check_intervals Provider.validate Interval.validate string_eq nat_eq
answered = refl

replace_alert_config-Replaced_example : Replaced database asked 4 row answer
replace_alert_config-Replaced_example =
    replace_alert_config-Replaced database (λ w. w) database-Transactional asked 4 row answer
      answered

abbrev other_database : Tables World
other_database = tables nothing (λ row w. (ok 0, w))

other_database-Keyed : Keyed other_database
other_database-Keyed = record {
  same_key = λ id provider symbol interval start w job h. absurd (ground arith);
}

job_repository-JobContract_example : JobContract executor (job_repository other_database)
job_repository-JobContract_example =
    job_repository-JobContract executor other_database other_database-Keyed

-- Of the events, the world knows whether there is one.
abbrev pub event_database : Tables Bool
event_database = record (tables nothing (λ row w. (ok 0, w))) {
  insert_event = λ event w. (ok (if w then 0 else 1), true);
}

abbrev event : InboundEvent
event = record {
  id = "1";
  provider = "slack";
  external_event_id = "e";
  message = "";
  received_at = 1;
  processed_at = none;
  status = "received";
  error_message = "";
}

claimed : (claim_inbound_event event_database event false).0 ≡ ok true
unfolding claim_inbound_event InboundEvent.validate Provider.validate_chat string_eq nat_eq
claimed = refl

pub event_database-UniqueEvents : UniqueEvents event_database (λ w provider id. w)
event_database-UniqueEvents = record {
  inserted = λ event w n h. ground arith;
  held_after = λ event w n h. refl;
}

claim_inbound_event-once_example :
    (claim_inbound_event event_database event (claim_inbound_event event_database event false).1).0
    ≢ ok true
claim_inbound_event-once_example =
    claim_inbound_event-once event_database (λ w provider id. w) event event false true
      event_database-UniqueEvents refl refl claimed

-- ===== src/Repository/Tables.antt =====
-- What internal/repository/postgres.go asks of the database library: one operation for each statement,
-- over a world `W` that holds the tables. A row is the value of internal/domain that `toDomain` and its
-- companions read it as, with its identifiers as the text of a `uuid.UUID`; the models of
-- internal/database have the same fields.
use crypto_price_alert.Base.{ℕ, String, Bool, List, Result}
use crypto_price_alert.Base.Action.{Action}
use crypto_price_alert.Domain.Interval.{Interval, Time}
use crypto_price_alert.Domain.Provider.{ChatProvider, MarketProvider}
use crypto_price_alert.Domain.Job.{Job, JobStatus}
use crypto_price_alert.Domain.Target.{AlertTarget}
use crypto_price_alert.Domain.InboundEvent.{InboundEvent}

-- `database.AlertConfig`, which leaves the symbols and the intervals to tables of their own.
pub record ConfigRow : Type 0 where
  pub target_id : String
  pub market_provider : MarketProvider
  pub enabled : Bool
  pub version : ℕ
  pub updated_by : String
  pub updated_at : Time

-- The numbers are the `RowsAffected` of a statement. `parse_uuid` is `uuid.Parse`, and `now` the clock.
pub record Tables (W : Type 0) : Type 1 where
  pub parse_uuid : String → Result String
  pub now : W → Time × W
  pub insert_job : Job → Action W ℕ
  pub find_job : String → MarketProvider → String → Interval → Time → Action W Job
  pub set_job_sent : String → JobStatus → String → Time → Time → Action W ℕ
  pub set_job_status : String → JobStatus → String → Time → Action W ℕ
  pub delete_oldest_jobs : Time → ℕ → Action W ℕ
  pub insert_target : AlertTarget → Action W ℕ
  pub find_target : ChatProvider → String → String → Action W AlertTarget
  pub enabled_targets : Action W (List AlertTarget)
  pub count_targets : Action W ℕ
  pub insert_config : ConfigRow → Action W Unit
  pub find_config : String → Action W ConfigRow
  pub symbols_of : String → Action W (List String)
  pub intervals_of : String → Action W (List Interval)
  pub update_config : String → ℕ → ConfigRow → Action W ℕ
  pub delete_symbols : String → Action W Unit
  pub delete_intervals : String → Action W Unit
  pub insert_symbol : String → String → Action W Unit
  pub insert_interval : String → Interval → Action W Unit
  pub insert_event : InboundEvent → Action W ℕ
  pub set_event_processed : ChatProvider → String → Time → Action W ℕ
  pub set_event_failed : ChatProvider → String → String → Action W ℕ
  pub transaction : {A : Type 0} → Action W A → Action W A

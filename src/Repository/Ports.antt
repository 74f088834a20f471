-- ===== src/Repository/Ports.antt =====
-- The interfaces of internal/repository/repository.go and chat_repository.go over a world `W`, and
-- what the program takes from its host: fresh identifiers, the clock and the text of an error.
use crypto_price_alert.Base.{ℕ, String, Bool, List, Error, Result, Status}
use crypto_price_alert.Domain.Interval.{Time}
use crypto_price_alert.Domain.Provider.{ChatProvider}
use crypto_price_alert.Domain.Job.{Job}
use crypto_price_alert.Domain.Target.{AlertTarget}
use crypto_price_alert.Domain.AlertConfig.{AlertConfig}
use crypto_price_alert.Domain.InboundEvent.{InboundEvent}

pub record Host (W : Type 0) : Type 0 where
  pub new_id : W → String × W
  pub now : W → Time × W
  pub error_text : Error → String

pub record JobRepository (W : Type 0) : Type 0 where
  pub create_if_not_exists : Job → W → Result (Job × Bool) × W
  pub mark_sent : String → Time → W → Status × W
  pub mark_failed : String → String → W → Status × W

pub record CleanupRepository (W : Type 0) : Type 0 where
  pub delete_updated_before : Time → ℕ → W → Result ℕ × W

pub record AlertTargetRepository (W : Type 0) : Type 0 where
  pub find_or_create_target : AlertTarget → W → Result AlertTarget × W
  pub get_target : ChatProvider → String → String → W → Result AlertTarget × W
  pub list_enabled_targets : W → Result (List AlertTarget) × W
  pub count_targets : W → Result ℕ × W

pub record AlertConfigRepository (W : Type 0) : Type 0 where
  pub create_alert_config : AlertConfig → W → Status × W
  pub get_alert_config : String → W → Result AlertConfig × W
  pub replace_alert_config : AlertConfig → ℕ → W → Result AlertConfig × W
  pub set_alert_config_enabled : String → Bool → String → ℕ → W → Result AlertConfig × W

pub record InboundEventRepository (W : Type 0) : Type 0 where
  pub claim_inbound_event : InboundEvent → W → Result Bool × W
  pub mark_processed : ChatProvider → String → Time → W → Status × W
  pub mark_failed_event : ChatProvider → String → String → W → Status × W

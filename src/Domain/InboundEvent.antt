-- ===== src/Domain/InboundEvent.antt =====
-- `InboundEvent` of internal/domain/types.go
use crypto_price_alert.Base.{
  String, ◌==◌, nat_eq, string_eq, ◌||◌, Option, failure, Status, fail_if, ◌>>◌,
}
use crypto_price_alert.Domain.Interval.{Time}
use crypto_price_alert.Domain.Provider
use crypto_price_alert.Domain.Provider.{ChatProvider}

pub record InboundEvent : Type 0 where
  pub id : String
  pub provider : ChatProvider
  pub external_event_id : String
  pub message : String
  pub received_at : Time
  pub processed_at : Option Time
  pub status : String
  pub error_message : String

unfoldable pub validate : InboundEvent → Status
validate e = do
  fail_if (e.id == "" || e.external_event_id == "" || e.received_at == 0 || e.status == "")
      (failure "invalid inbound event")
  Provider.validate_chat e.provider

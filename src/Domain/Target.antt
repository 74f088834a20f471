-- ===== src/Domain/Target.antt =====
-- `AlertTarget` of internal/domain/types.go
use crypto_price_alert.Base.{String, Bool, ◌==◌, string_eq, ◌||◌, failure, Status, fail_if, ◌>>◌}
use crypto_price_alert.Domain.Interval.{Time}
use crypto_price_alert.Domain.Provider
use crypto_price_alert.Domain.Provider.{ChatProvider}

pub record AlertTarget : Type 0 where
  pub id : String
  pub provider : ChatProvider
  pub tenant_id : String
  pub external_chat_id : String
  pub display_name : String
  pub creator_user_id : String
  pub enabled : Bool
  pub created_at : Time
  pub updated_at : Time

unfoldable pub validate : AlertTarget → Status
validate t = do
  fail_if
      (t.id == ""
        || t.provider == ""
        || t.tenant_id == ""
        || t.external_chat_id == ""
        || t.creator_user_id == "")
      (failure "invalid alert target")
  Provider.validate_chat t.provider

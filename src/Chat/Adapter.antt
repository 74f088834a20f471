-- ===== src/Chat/Adapter.antt =====
-- What the two chat adapters, internal/chat/telegram and internal/chat/slack, take of the rest of the
-- program and of `net/http`, `encoding/json` and echo.
use crypto_price_alert.Base.{ℕ, String, List, Result, Status}
use crypto_price_alert.Base.Action.{Action}
use crypto_price_alert.Base.Dict.{Dict}
use crypto_price_alert.Domain.Interval.{Interval}
use crypto_price_alert.Domain.Provider.{MarketProvider}
use crypto_price_alert.Chat.Command.{Command}
use crypto_price_alert.Notification.Retry.{Response}

-- `CommandService`
pub record CommandService (W : Type 0) : Type 0 where
  pub handle : Command → Action W String
  pub update_session : Command → MarketProvider → List String → List Interval → Action W Unit

-- The answer to a request: `c.NoContent` or `c.JSON` with one entry or with an empty object.
pub data Reply : Type 0 where
  no_content : ℕ → Reply
  json : ℕ → String → String → Reply
  json_empty : ℕ → Reply

-- A POST request with its headers.
pub record Request : Type 0 where
  pub url : String
  pub headers : Dict String String
  pub body : String

-- `marshal` is `json.Marshal`, `new_request` the check of the URL by `http.NewRequestWithContext`, and
-- `send` is `Do` of the client, with the whole of the body that it answers.
pub record HttpClient (P W : Type 0) : Type 0 where
  pub marshal : P → Result String
  pub new_request : String → Status
  pub send : Request → Action W Response

-- ===== src/Chat/Telegram/Webhook.antt =====
-- internal/chat/telegram/webhook.go: the handler of the updates (`Webhook` and `process`).
pub mod Guards
use crypto_price_alert.Base.{
  String, Bool, false, ◌==◌, nat_eq, string_eq, not, none, some, Result, ok, err, if◌then◌else◌,
}
use crypto_price_alert.Base.Text.{has_prefix}
use crypto_price_alert.Base.Action.{Action, pure, total, ◌>>=◌}
use crypto_price_alert.Domain.Provider.{telegram}
use crypto_price_alert.Chat.Service.{int64_text}
use crypto_price_alert.Chat.Adapter.{Reply}
use crypto_price_alert.Chat.Telegram.Types.{Update}
use crypto_price_alert.Chat.Telegram.Adapter.{Adapter, process_message}
use crypto_price_alert.Chat.Telegram.Buttons.{process_callback}

-- The header `X-Telegram-Bot-Api-Secret-Token`, and what the read of the body gives.
pub record WebhookRequest : Type 0 where
  pub secret : String
  pub body : Result String

unfoldable pub update_message : Update → String
update_message update = elim update.message [
  | some message ↦ message.text
  | none ↦ elim update.callback_query [ some callback ↦ callback.payload | none ↦ "" ]
]

-- A message that is no command.
unfoldable pub is_ignored : Update → Bool
is_ignored update = elim update.message [
  | none ↦ false
  | some message ↦ not (has_prefix message.text "/")
]

module _ {F W : Type 0} (a : Adapter F W) where
  unfoldable pub process : Update → Action W Unit
  unfolding process_message process_callback
  process update = elim update.message [
    | some message ↦ process_message a update.update_id message
    | none ↦ elim update.callback_query [
      | some callback ↦ process_callback a callback
      | none ↦ pure tt
    ]
  ]

  -- The event of an update, and its claim.
  unfoldable pub claim_update : Update → Action W Bool
  unfolding update_message int64_text
  claim_update update = do
    id ← total a.host.new_id
    now ← total a.host.now
    a.events.claim_inbound_event (record {
      id = id;
      provider = telegram;
      external_event_id = int64_text update.update_id;
      message = update_message update;
      received_at = now;
      processed_at = none;
      status = "received";
      error_message = "";
    })

  -- What follows a claim that succeeded: the processing, and the mark of its outcome.
  unfoldable pub finish_update : Update → W → Reply × W
  unfolding process int64_text
  finish_update update w =
      let (r, w1) = process update w in
      let (now, w2) = a.host.now w1 in
      elim r [
        | err e ↦ (
          Reply.json 200 "result" "event failed",
          (a.events.mark_failed_event telegram (int64_text update.update_id) (a.host.error_text e)
              w1).1,
        )
        | ok done ↦ (
          Reply.json 200 "result" "event processed",
          (a.events.mark_processed telegram (int64_text update.update_id) now w2).1,
        )
      ]

  unfoldable pub receive_update : Update → W → Reply × W
  unfolding claim_update finish_update
  receive_update update w =
      let (r, w1) = claim_update update w in
      elim r [
        | err e ↦ (Reply.json 500 "error" (a.host.error_text e), w1)
        | ok claimed ↦
            if not claimed
            then (Reply.json 200 "result" "event recorded", w1)
            else finish_update update w1
      ]

  -- `json.Unmarshal` of an update is a parameter.
  unfoldable pub webhook : (String → Result Update) → WebhookRequest → W → Reply × W
  unfolding receive_update is_ignored
  webhook decode request w =
      if not (request.secret == a.webhook_secret)
      then (Reply.no_content 401, w)
      else elim request.body [
        | err e ↦ (Reply.no_content 400, w)
        | ok body ↦ elim (decode body) [
          | err e ↦ (Reply.no_content 400, w)
          | ok update ↦
              if update.update_id == 0
              then (Reply.no_content 400, w)
              else if is_ignored update
              then (Reply.json 200 "result" "message ignored", w)
              else receive_update update w
        ]
      ]

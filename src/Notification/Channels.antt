-- ===== src/Notification/Channels.antt =====
-- internal/notification/telegram.go, slack.go and dryrun.go: the channels, as notifiers.
use Prim.Native.String.{◌++◌ as ◌<>◌}
use crypto_price_alert.Base.{
  ℕ, zero, suc, ◌*◌, ◌^◌, String, Bool, ◌==◌, nat_eq, string_eq, not, ◌&&◌, ◌||◌, none, some, [],
  ◌∷◌, failure, errorf, Result, ok, err, Status, ltb, leb, if◌then◌else◌,
}
use crypto_price_alert.Base.Dict.{Dict}
use crypto_price_alert.Base.Text.{decimal}
use crypto_price_alert.Domain.Interval.{Duration}
use crypto_price_alert.Domain.Period.{Message}
use crypto_price_alert.Domain.Provider.{telegram, slack}
use crypto_price_alert.Domain.Target.{AlertTarget}
use crypto_price_alert.Notification.Message.{render_message}
use crypto_price_alert.Notification.Notifier.{Notifier}
use crypto_price_alert.Notification.Retry.{Response, Transport, send_with_retry}

-- What Slack's answer holds behind `json.Unmarshal`, and whether that succeeded.
pub record SlackResult : Type 0 where
  pub decoded : Bool
  pub is_ok : Bool
  pub error : String

-- The HTTP client: `connect` gives the transport of a POST request to a URL, with headers and with a JSON
-- object of texts. `sleep` is `time.Sleep`, and `decode` reads Slack's answer.
pub record Channel (W : Type 0) : Type 0 where
  pub connect : String → Dict String String → Dict String String → Transport W
  pub sleep : Duration → W → W
  pub decode : String → SlackResult

pub record TelegramNotifier (W : Type 0) : Type 0 where
  pub bot_token : String
  pub chat_id : String
  pub base_url : String
  pub channel : Channel W
  pub max_attempts : ℕ
  pub backoff : Duration

pub record SlackNotifier (W : Type 0) : Type 0 where
  pub webhook_url : String
  pub channel : Channel W
  pub max_attempts : ℕ
  pub backoff : Duration

pub record SlackBotNotifier (W : Type 0) : Type 0 where
  pub bot_token : String
  pub base_url : String
  pub channel : Channel W
  pub max_attempts : ℕ
  pub backoff : Duration

module _ {W : Type 0} where
  -- `NewTelegramNotifier`, `NewSlackNotifier` and `NewSlackBotNotifier`, of the settings as they are given.
  unfoldable pub new_telegram_notifier : TelegramNotifier W → Result (TelegramNotifier W)
  new_telegram_notifier n =
      if n.bot_token == "" || n.chat_id == "" || ltb n.max_attempts 1 || n.backoff == 0
      then err (failure "invalid Telegram notifier settings")
      else ok (record n {
        base_url = if n.base_url == "" then "https://api.telegram.org" else n.base_url;
      })

  unfoldable pub new_slack_notifier : SlackNotifier W → Result (SlackNotifier W)
  new_slack_notifier n =
      if n.webhook_url == "" || ltb n.max_attempts 1 || n.backoff == 0
      then err (failure "invalid Slack notifier settings")
      else ok n

  unfoldable pub new_slack_bot_notifier : SlackBotNotifier W → Result (SlackBotNotifier W)
  new_slack_bot_notifier n =
      if n.bot_token == "" || ltb n.max_attempts 1 || n.backoff == 0
      then err (failure "invalid Slack bot notifier settings")
      else ok
          (record n { base_url = if n.base_url == "" then "https://slack.com/api" else n.base_url })

  -- `sendMessageToChat`
  unfoldable pub send_message_to_chat : TelegramNotifier W → String → String → W → Status × W
  unfolding send_with_retry
  send_message_to_chat n chat_id text =
      send_with_retry
        (n.channel.connect (n.base_url <> "/bot" <> n.bot_token <> "/sendMessage") []
          (("chat_id", chat_id) ∷ ("text", text) ∷ []))
        n.backoff n.max_attempts

  unfoldable pub telegram_to_target : TelegramNotifier W → AlertTarget → Message → W → Status × W
  unfolding send_message_to_chat render_message
  telegram_to_target n target message w =
      if not (target.provider == telegram) || target.external_chat_id == ""
      then (err (failure "invalid Telegram alert target"), w)
      else send_message_to_chat n target.external_chat_id (render_message message) w

  unfoldable pub telegram_notifier : TelegramNotifier W → Notifier W
  unfolding telegram_to_target send_message_to_chat render_message
  telegram_notifier n = record {
    target_provider = some telegram;
    to_target = some (telegram_to_target n);
    send = λ message. send_message_to_chat n n.chat_id (render_message message);
  }

  unfoldable pub slack_notifier : SlackNotifier W → Notifier W
  unfolding send_with_retry render_message
  slack_notifier n = record {
    target_provider = none;
    to_target = none;
    send = λ message.
        send_with_retry (n.channel.connect n.webhook_url [] (("text", render_message message) ∷ []))
          n.backoff n.max_attempts;
  }

  -- What the answer of one attempt of the Slack bot means.
  unfoldable pub slack_verdict : Channel W → Result Response → Status
  slack_verdict channel (err e) = err e
  slack_verdict channel (ok response) = elim response.body [
    | err e ↦ err e
    | ok body ↦
        let result = channel.decode body in
        if not (leb 200 response.status_code && ltb response.status_code 300)
        then err (errorf "Slack API HTTP status %d" (decimal response.status_code ∷ []))
        else if result.decoded && result.is_ok
        then ok tt
        else err (errorf "Slack API: %s" (result.error ∷ []))
  ]

  -- The loop of the Slack bot, with `left` attempts to come; `last` is the last error.
  unfoldable pub post_attempts : SlackBotNotifier W → Transport W → ℕ → ℕ → Status → W → Status × W
  unfolding slack_verdict
  post_attempts n transport zero attempt last w = (last, w)
  post_attempts n transport (suc left) attempt last w = elim transport.request [
    | err e ↦ (err e, w)
    | ok made ↦
        let (answer, w1) = transport.send w in
        elim (slack_verdict n.channel answer) [
          | ok delivered ↦ (ok tt, w1)
          | err e ↦ elim left [
            | zero ↦ (err e, w1)
            | suc more ↦
                post_attempts n transport left (suc attempt) (err e)
                  (n.channel.sleep (n.backoff * 2 ^ attempt) w1)
          ]
        ]
  ]

  -- `SendMessageToChannel`
  unfoldable pub send_message_to_channel : SlackBotNotifier W → String → String → W → Status × W
  unfolding post_attempts
  send_message_to_channel n channel_id text =
      post_attempts n
        (n.channel.connect (n.base_url <> "/chat.postMessage")
          (("Authorization", "Bearer " <> n.bot_token) ∷ ("Content-Type", "application/json") ∷ [])
          (("channel", channel_id) ∷ ("text", text) ∷ []))
        n.max_attempts 0 (ok tt)

  unfoldable pub slack_to_target : SlackBotNotifier W → AlertTarget → Message → W → Status × W
  unfolding send_message_to_channel render_message
  slack_to_target n target message w =
      if not (target.provider == slack) || target.external_chat_id == ""
      then (err (failure "invalid Slack alert target"), w)
      else send_message_to_channel n target.external_chat_id (render_message message) w

  unfoldable pub slack_bot_notifier : SlackBotNotifier W → Notifier W
  unfolding slack_to_target
  slack_bot_notifier n = record {
    target_provider = some slack;
    to_target = some (slack_to_target n);
    send = λ message w. (err (failure "Slack bot notifier requires an alert target"), w);
  }

  -- `DryRunNotifier`, which only logs.
  unfoldable pub dry_run_notifier : Notifier W
  dry_run_notifier = record {
    target_provider = none;
    to_target = some (λ target message w. (ok tt, w));
    send = λ message w. (ok tt, w);
  }

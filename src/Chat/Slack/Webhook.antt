-- ===== src/Chat/Slack/Webhook.antt =====
-- internal/chat/slack/webhook.go: the two handlers, which acknowledge at once. The goroutine that they
-- start is the second part of the result, a task that is to be run on whatever world it meets.
pub mod Claims
pub mod Admission
use Prim.Native.String.{◌++◌ as ◌<>◌}
use crypto_price_alert.Base.{
  String, Bool, ◌==◌, string_eq, not, ◌||◌, Option, none, some, [], ◌∷◌, Result, ok, err, ok?,
  if◌then◌else◌,
}
use crypto_price_alert.Base.Text.{trim_space}
use crypto_price_alert.Base.Action.{Action, pure, total, ◌>>=◌}
use crypto_price_alert.Domain.Provider.{slack}
use crypto_price_alert.Chat.Adapter.{Reply}
use crypto_price_alert.Chat.Slack.Types.{SlashCommand, Interaction}
use crypto_price_alert.Chat.Slack.Signature.{verify_signature}
use crypto_price_alert.Chat.Slack.Adapter.{Adapter, validate_context, process_slash}
use crypto_price_alert.Chat.Slack.Controls.{process_interaction}

-- The two headers, and what the read of the body gives.
pub record WebhookRequest : Type 0 where
  pub timestamp : String
  pub signature : String
  pub body : Result String

-- What the handlers take of the standard library: the hexadecimal HMAC, `url.ParseQuery`, as the
-- function from a key to its value, and `json.Unmarshal` of an interaction.
pub record Codec : Type 0 where
  pub mac : String → String → String
  pub parse_query : String → Result (String → String)
  pub decode : String → Result Interaction

abbrev pub Task : Type 0 → Type 0
Task W = Option (W → W)

unfoldable pub slash_message : SlashCommand → String
unfolding trim_space
slash_message payload = trim_space (
    if payload.text == ""
    then trim_space payload.command
    else trim_space payload.command <> " " <> trim_space payload.text)

unfoldable pub interaction_message : Interaction → String
interaction_message payload = elim payload.actions [ [] ↦ "" | action ∷ more ↦ action.value ]

unfoldable pub slash_command : (String → String) → SlashCommand
slash_command values = record {
  token = values "token";
  team_id = values "team_id";
  api_app_id = values "api_app_id";
  channel_id = values "channel_id";
  channel_name = values "channel_name";
  user_id = values "user_id";
  user_name = values "user_name";
  command = values "command";
  text = values "text";
  response_url = values "response_url";
  trigger_id = values "trigger_id";
}

-- The acknowledgement, behind the claim.
unfoldable pub acknowledge : {W : Type 0} → Result (Task W) × W → (Reply × Task W) × W
acknowledge (err e, w) = ((Reply.no_content 500, none), w)
acknowledge (ok task, w) = ((Reply.json_empty 200, task), w)

module _ {F W : Type 0} (a : Adapter F W) where
  -- The goroutine of `claimAndProcess`
  unfoldable pub background : String → Action W Unit → W → W
  background external_id process w =
      let (r, w1) = process w in
      let (now, w2) = a.host.now w1 in
      elim r [
        | err e ↦ (a.events.mark_failed_event slack external_id (a.host.error_text e) w1).1
        | ok done ↦ (a.events.mark_processed slack external_id now w2).1
      ]

  -- The event of a request, and its claim.
  unfoldable pub claim_event : String → String → Action W Bool
  claim_event external_id message = do
    id ← total a.host.new_id
    now ← total a.host.now
    a.events.claim_inbound_event (record {
      id = id;
      provider = slack;
      external_event_id = external_id;
      message = message;
      received_at = now;
      processed_at = none;
      status = "received";
      error_message = "";
    })

  unfoldable pub claim_and_process : String → String → Action W Unit → Action W (Task W)
  unfolding claim_event background
  claim_and_process external_id message process = do
    claimed ← claim_event external_id message
    pure (if claimed then some (background external_id process) else none)

  -- `VerifySignature` of a request, at the time of the clock.
  unfoldable pub verified : Codec → WebhookRequest → String → W → Bool × W
  unfolding verify_signature
  verified codec request body w =
      let (now, w1) = a.host.now w in
      (
        ok? (
            verify_signature codec.mac a.signing_secret request.timestamp request.signature body now
              a.replay_window),
        w1,
      )

  -- The identifier of the trigger, or a fresh one.
  unfoldable pub trigger_or_new : String → W → String × W
  trigger_or_new trigger w = if trigger == "" then a.host.new_id w else (trigger, w)

  unfoldable pub receive_slash : SlashCommand → W → (Reply × Task W) × W
  unfolding validate_context trigger_or_new claim_and_process process_slash slash_message
      acknowledge
  receive_slash payload w =
      let (id, w1) = trigger_or_new payload.trigger_id w in
      let named : SlashCommand = record payload { trigger_id = id } in
      if not (ok? (validate_context a payload.api_app_id payload.team_id))
        || payload.channel_id == ""
        || payload.user_id == ""
      then ((Reply.no_content 403, none), w)
      else acknowledge (claim_and_process id (slash_message named) (process_slash a named) w1)

  unfoldable pub receive_interaction : Interaction → W → (Reply × Task W) × W
  unfolding validate_context trigger_or_new claim_and_process process_interaction
      interaction_message acknowledge
  receive_interaction payload w =
      let (id, w1) = trigger_or_new payload.trigger_id w in
      if not (ok? (validate_context a payload.api_app_id payload.team.id))
        || payload.channel.id == ""
        || payload.user.id == ""
        || payload.response_url == ""
      then ((Reply.no_content 403, none), w)
      else acknowledge
          (claim_and_process id (interaction_message payload) (process_interaction a payload) w1)

  -- What both handlers begin with; `receive` gets the values of a verified request.
  unfoldable pub with_values :
      Codec
      → WebhookRequest
      → ((String → String) → W → (Reply × Task W) × W)
      → W
      → (Reply × Task W) × W
  unfolding verified
  with_values codec request receive w = elim request.body [
    | err e ↦ ((Reply.no_content 401, none), w)
    | ok body ↦
        (let (genuine, w1) = verified codec request body w in
          if not genuine
          then ((Reply.no_content 401, none), w1)
          else elim (codec.parse_query body) [
            | err e ↦ ((Reply.no_content 400, none), w1)
            | ok values ↦ receive values w1
          ])
  ]

  unfoldable pub slash_values : (String → String) → W → (Reply × Task W) × W
  unfolding receive_slash slash_command
  slash_values values w = receive_slash (slash_command values) w

  unfoldable pub interaction_values : Codec → (String → String) → W → (Reply × Task W) × W
  unfolding receive_interaction
  interaction_values codec values w = elim (codec.decode (values "payload")) [
    | err e ↦ ((Reply.no_content 400, none), w)
    | ok payload ↦ receive_interaction payload w
  ]

  unfoldable pub slash_command_webhook : Codec → WebhookRequest → W → (Reply × Task W) × W
  unfolding with_values slash_values
  slash_command_webhook codec request = with_values codec request slash_values

  unfoldable pub interaction_webhook : Codec → WebhookRequest → W → (Reply × Task W) × W
  unfolding with_values interaction_values
  interaction_webhook codec request = with_values codec request (interaction_values codec)

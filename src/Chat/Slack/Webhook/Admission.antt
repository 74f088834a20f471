-- ===== src/Chat/Slack/Webhook/Admission.antt =====
-- What the handlers of internal/chat/slack/webhook.go let pass to the background.
use mathlib.Core.Path.{subst}
use crypto_price_alert.Base.{
  String, true, ◌≡◌, refl, string_eq, ok, arith, Result-cases, inl, inr, ap, sym, ◌∙◌,
}
use crypto_price_alert.Base.Action.{Action}
use crypto_price_alert.Chat.Adapter.{Reply}
use crypto_price_alert.Chat.Slack.Types.{SlashCommand, Interaction}
use crypto_price_alert.Chat.Slack.Signature.{verify_signature}
use crypto_price_alert.Chat.Slack.Adapter.{Adapter, process_slash}
use crypto_price_alert.Chat.Slack.Controls.{process_interaction}
use crypto_price_alert.Chat.Slack.Webhook.{
  Codec, WebhookRequest, Task, claim_and_process, verified, acknowledge, receive_slash,
  receive_interaction, slash_command, with_values, slash_command_webhook, interaction_webhook,
  trigger_or_new, slash_message, slash_values, interaction_values, interaction_message,
}
use crypto_price_alert.Chat.Slack.Webhook.Claims.{starts, Claimed, acknowledge-Claimed}

module _ {F W : Type 0} (a : Adapter F W) where
  -- A request that starts a task.
  pub record IsGenuine (codec : Codec) (request : WebhookRequest) (w : W) : Type 0 where
    pub body : String
    pub read : request.body ≡ ok body
    pub signed :
        verify_signature codec.mac a.signing_secret request.timestamp request.signature body
          (a.host.now w).0
          a.replay_window
        ≡ ok tt

  -- What `with_values` hands to the handler that starts a task.
  record Passed (codec : Codec) (request : WebhookRequest)
      (receive : (String → String) → W → (Reply × Task W) × W) (w : W) : Type 0 where
    genuine : IsGenuine codec request w
    values : String → String
    parsed : codec.parse_query genuine.body ≡ ok values
    passed_on : with_values a codec request receive w ≡ receive values (a.host.now w).1

  with_values-Passed :
      (codec : Codec) (request : WebhookRequest)
      (receive : (String → String) → W → (Reply × Task W) × W) (w : W)
      → starts (with_values a codec request receive w) ≡ true
      → Passed codec request receive w
  unfolding with_values verified
  with_values-Passed codec request receive w h = elim (Result-cases request.body) [
    | inr (error, b) ↦ absurd (ground arith)
    | inl (body, b) ↦
        elim (Result-cases (
          verify_signature codec.mac a.signing_secret request.timestamp request.signature body
            (a.host.now w).0 a.replay_window)) [
              | inr (error, v) ↦ absurd (ground arith)
              | inl (passed, v) ↦ elim (Result-cases (codec.parse_query body)) [
                | inr (error, q) ↦ absurd (ground arith)
                | inl (values, q) ↦ record {
                  genuine = record { body = body; read = b; signed = v };
                  values = values;
                  parsed = q;
                  passed_on = rw (with_values, b, verified, v, q) refl;
                }
              ]
            ]
  ]

  -- The processing of a slash command, for the identifier of its event.
  abbrev pub slash_task : SlashCommand → String → Action W Unit
  slash_task payload id = process_slash a (record payload { trigger_id = id })

  receive_slash-Claimed :
      (payload : SlashCommand) (w : W)
      → starts (receive_slash a payload w) ≡ true
      → Claimed a payload.trigger_id
          (slash_message payload)
          (slash_task payload)
          w
          (receive_slash a payload w)
  unfolding receive_slash slash_message
  receive_slash-Claimed payload w h =
      let (id, w1) = trigger_or_new a payload.trigger_id w in
      let answer =
        acknowledge (claim_and_process a id (slash_message payload) (slash_task payload id) w1) in
      let opened : receive_slash a payload w ≡ answer = ground arith in
      subst (Claimed a payload.trigger_id (slash_message payload) (slash_task payload) w)
        (sym opened)
        (acknowledge-Claimed a payload.trigger_id (slash_message payload) (slash_task payload) w
          (ap starts (sym opened) ∙ h))

  -- What a request went through that starts a task for a slash command.
  pub record SlashStarted (codec : Codec) (request : WebhookRequest) (w : W) : Type 0 where
    pub genuine : IsGenuine codec request w
    pub values : String → String
    pub parsed : codec.parse_query genuine.body ≡ ok values
    pub claim :
        Claimed a
          (values "trigger_id")
          (slash_message (slash_command values))
          (slash_task (slash_command values))
          (a.host.now w).1
          (slash_command_webhook a codec request w)

  -- A request that starts a task in the background by the handler of slash commands has passed the
  -- signature check at the time of the clock; an event of Slack with the text of its command was
  -- claimed, under the trigger identifier of the request, or a new one if it has none; the world is
  -- what this claim left; and the task processes the command of the request under the identifier of
  -- this event.
  pub slash_command_webhook-SlashStarted :
      (codec : Codec) (request : WebhookRequest) (w : W)
      → starts (slash_command_webhook a codec request w) ≡ true
      → SlashStarted codec request w
  unfolding slash_command_webhook slash_values receive_slash slash_message slash_command
  slash_command_webhook-SlashStarted codec request w h =
      let p = with_values-Passed codec request (slash_values a) w h in
      record {
        genuine = p.genuine;
        values = p.values;
        parsed = p.parsed;
        claim =
            subst
              (Claimed a (p.values "trigger_id") (slash_message (slash_command p.values))
                (slash_task (slash_command p.values)) (a.host.now w).1)
              (sym p.passed_on)
              (receive_slash-Claimed (slash_command p.values) (a.host.now w).1
                (ap starts (sym p.passed_on) ∙ h));
      }

  receive_interaction-Claimed :
      (payload : Interaction) (w : W)
      → starts (receive_interaction a payload w) ≡ true
      → Claimed a payload.trigger_id
          (interaction_message payload)
          (λ id. process_interaction a payload)
          w
          (receive_interaction a payload w)
  unfolding receive_interaction
  receive_interaction-Claimed payload w h =
      let (id, w1) = trigger_or_new a payload.trigger_id w in
      let message = interaction_message payload in
      let process : String → Action W Unit = λ id. process_interaction a payload in
      let answer = acknowledge (claim_and_process a id message (process id) w1) in
      let opened : receive_interaction a payload w ≡ answer = ground arith in
      subst (Claimed a payload.trigger_id message process w) (sym opened)
        (acknowledge-Claimed a payload.trigger_id message process w (ap starts (sym opened) ∙ h))

  -- What a request went through that starts a task for an interaction.
  pub record InteractionStarted (codec : Codec) (request : WebhookRequest) (w : W) : Type 0 where
    pub genuine : IsGenuine codec request w
    pub values : String → String
    pub parsed : codec.parse_query genuine.body ≡ ok values
    pub payload : Interaction
    pub decoded : codec.decode (values "payload") ≡ ok payload
    pub claim :
        Claimed a payload.trigger_id
          (interaction_message payload)
          (λ id. process_interaction a payload)
          (a.host.now w).1
          (interaction_webhook a codec request w)

  -- A request that starts a task in the background by the handler of interactions has passed the
  -- signature check at the time of the clock; an event of Slack with the value of its control was
  -- claimed, under the trigger identifier of the interaction, or a new one if it has none; the
  -- world is what this claim left; and the task processes the interaction of the request, for this
  -- event.
  pub interaction_webhook-InteractionStarted :
      (codec : Codec) (request : WebhookRequest) (w : W)
      → starts (interaction_webhook a codec request w) ≡ true
      → InteractionStarted codec request w
  unfolding interaction_webhook interaction_values receive_interaction
  interaction_webhook-InteractionStarted codec request w h =
      let p = with_values-Passed codec request (interaction_values a codec) w h in
      let w1 = (a.host.now w).1 in
      elim (Result-cases (codec.decode (p.values "payload"))) [
        | inr (error, d) ↦ absurd (ground (arith, p.passed_on))
        | inl (payload, d) ↦
            (let opened : interaction_webhook a codec request w ≡ receive_interaction a payload w1 =
                p.passed_on ∙ rw (interaction_values, d) refl in
              record {
                genuine = p.genuine;
                values = p.values;
                parsed = p.parsed;
                payload = payload;
                decoded = d;
                claim =
                    subst
                      (Claimed a payload.trigger_id (interaction_message payload)
                        (λ id. process_interaction a payload) w1)
                      (sym opened)
                      (receive_interaction-Claimed payload w1 (ap starts (sym opened) ∙ h));
              })
      ]

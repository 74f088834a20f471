-- ===== src/Chat/Slack/Webhook/Claims.antt =====
-- The claim of an event by internal/chat/slack/webhook.go, and the task that follows it.
use crypto_price_alert.Base.{
  String, Bool, true, false, ◌≡◌, ◌≢◌, refl, string_eq, none, some, ok, arith, Result-cases,
  Bool-cases, inl, inr, ap, ◌∙◌,
}
use crypto_price_alert.Domain.Provider.{slack}
use crypto_price_alert.Domain.InboundEvent.{InboundEvent}
use crypto_price_alert.Base.Action.{Action}
use crypto_price_alert.Chat.Adapter.{Reply}
use crypto_price_alert.Chat.Slack.Adapter.{Adapter}
use crypto_price_alert.Chat.Slack.Webhook.{
  Task, background, claim_event, claim_and_process, acknowledge, trigger_or_new,
}

abbrev pub starts : {W : Type 0} → (Reply × Task W) × W → Bool
starts r = elim r.0.1 [ none ↦ false | some task ↦ true ]

module _ {F W : Type 0} (a : Adapter F W) where
  -- An event of Slack was claimed, under the identifier of the trigger if there is one, and the task is
  -- the processing for this identifier, which marks this event at its end.
  pub record Claimed (trigger message : String) (process : String → Action W Unit) (w : W)
      (r : (Reply × Task W) × W) : Type 0 where
    pub event : InboundEvent
    pub before : W
    pub of_slack : event.provider ≡ slack
    pub of_trigger : trigger ≢ "" → event.external_event_id ≡ trigger
    pub of_fresh : trigger ≡ "" → event.external_event_id ≡ (a.host.new_id w).0
    pub of_message : event.message ≡ message
    pub claimed : (a.events.claim_inbound_event event before).0 ≡ ok true
    pub after : r.1 ≡ (a.events.claim_inbound_event event before).1
    pub task : r.0.1 ≡ some (background a event.external_event_id (process event.external_event_id))

  pub acknowledge-Claimed :
      (trigger message : String) (process : String → Action W Unit) (w : W)
      → let (id, w1) = trigger_or_new a trigger w in
        starts (acknowledge (claim_and_process a id message (process id) w1)) ≡ true
        → Claimed trigger message process w
            (acknowledge (claim_and_process a id message (process id) w1))
  unfolding acknowledge claim_and_process claim_event trigger_or_new
  acknowledge-Claimed trigger message process w h =
      let (id, w1) = trigger_or_new a trigger w in
      let (fresh, w2) = a.host.new_id w1 in
      let (now, w3) = a.host.now w2 in
      let event : InboundEvent = record {
        id = fresh;
        provider = slack;
        external_event_id = id;
        message = message;
        received_at = now;
        processed_at = none;
        status = "received";
        error_message = "";
      } in
      elim (Result-cases (a.events.claim_inbound_event event w3).0) [
        | inr (error, c) ↦ absurd (ground arith)
        | inl (new, c) ↦ elim (Bool-cases new) [
          | inl yes_new ↦ record {
            event = event;
            before = w3;
            of_slack = refl;
            of_trigger = λ named. ground arith;
            of_fresh = λ unnamed. ground arith;
            of_message = refl;
            claimed = c ∙ ap ok yes_new;
            after = ground arith;
            task = ground arith;
          }
          | inr old ↦ absurd (ground arith)
        ]
      ]

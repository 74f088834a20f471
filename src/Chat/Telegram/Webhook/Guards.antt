-- ===== src/Chat/Telegram/Webhook/Guards.antt =====
-- What the webhook of internal/chat/telegram/webhook.go lets pass.
use crypto_price_alert.Base.{
  some, String, Bool, true, false, ◌≡◌, ◌≢◌, ◌⊎◌, inl, inr, nat_eq, string_eq, Result, ok, arith,
  refl, Result-cases, Bool-cases, ap, ◌∙◌,
}
use crypto_price_alert.Base.Text.{has_prefix}
use crypto_price_alert.Domain.Provider.{ChatProvider, telegram}
use crypto_price_alert.Repository.Tables.{Tables}
use crypto_price_alert.Repository.Targets.{inbound_event_repository}
use crypto_price_alert.Repository.Targets.Claims.{UniqueEvents, claim_inbound_event-held}
use crypto_price_alert.Chat.Service.{int64_text}
use crypto_price_alert.Chat.Telegram.Types.{Message, Update}
use crypto_price_alert.Chat.Telegram.Adapter.{Adapter}
use crypto_price_alert.Chat.Telegram.Webhook.{
  WebhookRequest, is_ignored, claim_update, receive_update, webhook,
}

module _ {F W : Type 0} (a : Adapter F W) where
  -- An update that is not claimed is not processed.
  receive_update-refused :
      (update : Update) (w : W)
      → (claim_update a update w).0 ≢ ok true
      → (receive_update a update w).1 ≡ (claim_update a update w).1
  unfolding receive_update
  receive_update-refused update w refused = elim (Result-cases (claim_update a update w).0) [
    | inr (error, c) ↦ rw c refl
    | inl (claimed, c) ↦ elim (Bool-cases claimed) [
      | inl new ↦ absurd (refused (c ∙ ap ok new))
      | inr old ↦ rw (c, old) refl
    ]
  ]

  claim_update-held :
      (t : Tables W) (held : W → ChatProvider → String → Bool) (update : Update) (w : W)
      → a.events ≡ inbound_event_repository t
      → UniqueEvents t held
      → ((v : W) → held (a.host.new_id v).1 ≡ held v)
      → ((v : W) → held (a.host.now v).1 ≡ held v)
      → held w telegram (int64_text update.update_id) ≡ true
      → (claim_update a update w).0 ≢ ok true
  unfolding claim_update inbound_event_repository
  claim_update-held t held update w stored unique id_keeps now_keeps there = rw stored (
      claim_inbound_event-held t held _ (a.host.now (a.host.new_id w).1).1 unique
        (rw (now_keeps (a.host.new_id w).1, id_keeps w) there))

command-slash :
    (update : Update) (message : Message)
    → is_ignored update ≡ false
    → update.message ≡ some message
    → has_prefix message.text "/" ≡ true
unfolding is_ignored
command-slash update message command there = ground (arith, there)

module _ {F W : Type 0} (a : Adapter F W) (decode : String → Result Update) where
  -- A request that the webhook takes in.
  pub record Authentic (request : WebhookRequest) : Type 0 where
    pub body : String
    pub update : Update
    pub secret : request.secret ≡ a.webhook_secret
    pub read : request.body ≡ ok body
    pub decoded : decode body ≡ ok update
    pub numbered : update.update_id ≢ 0
    pub command : is_ignored update ≡ false
    pub slashed :
        (message : Message) → update.message ≡ some message → has_prefix message.text "/" ≡ true

  -- A request that changes anything carries the secret of the webhook, and its body is an update
  -- whose identifier is not 0 and whose message, if there is one, begins with a slash.
  pub webhook-Authentic :
      (request : WebhookRequest) (w : W) → (webhook a decode request w).1 ≢ w → Authentic request
  unfolding webhook
  webhook-Authentic request w changes = elim (Result-cases request.body) [
    | inr (error, b) ↦ absurd (ground arith)
    | inl (body, b) ↦ elim (Result-cases (decode body)) [
      | inr (error, d) ↦ absurd (ground arith)
      | inl (update, d) ↦ record {
        body = body;
        update = update;
        secret = ground arith;
        read = b;
        decoded = d;
        numbered = ground arith;
        command = ground arith;
        slashed = λ message there. command-slash update message (ground arith) there;
      }
    ]
  ]

  -- Over the PostgreSQL repository and a database with one row for each provider and external
  -- identifier of an event, with an identifier source and a clock that change no row, a request
  -- with an update whose row is there changes nothing, or nothing but what the claim of the update
  -- changes.
  pub webhook-redelivered :
      (t : Tables W) (held : W → ChatProvider → String → Bool) (request : WebhookRequest)
      (body : String) (update : Update) (w : W)
      → a.events ≡ inbound_event_repository t
      → UniqueEvents t held
      → ((v : W) → held (a.host.new_id v).1 ≡ held v)
      → ((v : W) → held (a.host.now v).1 ≡ held v)
      → request.body ≡ ok body
      → decode body ≡ ok update
      → held w telegram (int64_text update.update_id) ≡ true
      → ((webhook a decode request w).1 ≡ w)
        ⊎ ((webhook a decode request w).1 ≡ (claim_update a update w).1)
  unfolding webhook
  webhook-redelivered t held request body update w stored unique id_keeps now_keeps read decoded
        there =
      rw (read, decoded)
        (ground (
          arith,
          receive_update-refused a update w
              (claim_update-held a t held update w stored unique id_keeps now_keeps there),
        ))

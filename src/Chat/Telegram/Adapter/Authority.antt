-- ===== src/Chat/Telegram/Adapter/Authority.antt =====
-- Commands of others than the creator of a chat in internal/chat/telegram/webhook.go.
use crypto_price_alert.Base.{
  ℕ, String, List, true, none, ◌≡◌, ◌≢◌, ok, arith, refl, Result-cases, inl, inr, ap, ◌∙◌,
}
use crypto_price_alert.Domain.Target.{AlertTarget}
use crypto_price_alert.Chat.Command.{Command, is_mutation, authorize_creator}
use crypto_price_alert.Chat.Parser.{parse_command}
use crypto_price_alert.Chat.Service
use crypto_price_alert.Chat.Service.{Service, int64_text}
use crypto_price_alert.Chat.Service.Authority.{handle-outsider}
use crypto_price_alert.Chat.Telegram.Types.{User, Message}
use crypto_price_alert.Chat.Telegram.Client.{send_message}
use crypto_price_alert.Chat.Telegram.Adapter.{
  Adapter, answer_message, handle_command, user_id_string,
}

module _ {F W : Type 0} (a : Adapter F W) (s : Service W)
    (wired : a.commands.handle ≡ Service.handle s)
    (creators : s.authorize ≡ authorize_creator) where
  handle_command-outsider :
      (chat_id : ℕ) (command : Command) (w : W)
      → is_mutation command.action ≡ true
      → command.actor_user_id ≢ command.target.creator_user_id
      → handle_command a chat_id command w
        ≡ send_message a.client chat_id "Unable to process the request." none w
  unfolding handle_command
  handle_command-outsider chat_id command w mutation outsider =
      let (failed, same) = handle-outsider s creators command w mutation outsider in
      elim (Result-cases (Service.handle s command w).0) [
        | inl (answer, r) ↦ absurd (ground (arith, failed, r))
        | inr (error, r) ↦
            rw
              (
                handle_command,
                ap (λ f. (f command w).0) wired ∙ r,
                ap (λ f. (f command w).1) wired ∙ same,
              )
              refl
      ]

  -- Over the chat service with the creator authorizer, a message with a command that is a mutation, of a
  -- user who is not the creator of the target, does no more than send the answer that the request
  -- cannot be processed.
  pub answer_message-outsider :
      (update_id : ℕ) (message : Message) (sender : User) (target : AlertTarget) (action : String)
      (arguments : List String) (w : W)
      → parse_command message.text ≡ ok (action, arguments)
      → is_mutation action ≡ true
      → user_id_string sender.id ≢ target.creator_user_id
      → answer_message a update_id message sender target w
        ≡ send_message a.client message.chat.id "Unable to process the request." none w
  unfolding answer_message
  answer_message-outsider update_id message sender target action arguments w parsed mutation
        outsider =
      rw (answer_message, parsed)
        (handle_command-outsider message.chat.id
          (record {
            target = target;
            actor_user_id = user_id_string sender.id;
            action = action;
            arguments = arguments;
            event_id = int64_text update_id;
          })
          w mutation outsider)

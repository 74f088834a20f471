-- ===== src/Chat/Slack/Controls/Authority.antt =====
-- Who may use the controls of internal/chat/slack/webhook.go.
use mathlib.Core.Path.{subst}
use crypto_price_alert.Base.{
  String, ◌≡◌, ◌⊎◌, ◌==◌, string_eq, [], ◌∷◌, ok, err, arith, Error, failure, ap, sym, refl, inl,
  inr, Result-cases, Bool-cases, ==_path,
}
use crypto_price_alert.Base.Action.{Action}
use crypto_price_alert.Domain.Provider.{slack}
use crypto_price_alert.Domain.Target.{AlertTarget}
use crypto_price_alert.Chat.Command
use crypto_price_alert.Chat.Command.{Command}
use crypto_price_alert.Chat.Slack.Types.{Interaction, BlockAction, ChannelInfo, Response}
use crypto_price_alert.Chat.Slack.Client.{get_channel_info}
use crypto_price_alert.Chat.Slack.Adapter.{Adapter, answer_with, respond_error}
use crypto_price_alert.Chat.Slack.Controls.{
  not_creator, use_control, check_creator, interaction_answer, process_interaction,
}
use crypto_price_alert.Chat.Slack.Controls.Guards.{
  behind_target, behind_channel, IsRead, Use, Refused, only_action-cases, use_control-guarded,
}

module _ {F W : Type 0} (a : Adapter F W) where
  answer_with-failed :
      (url : String) (m : Action W Response) (e : Error) (w v : W)
      → m w ≡ (err e, v)
      → answer_with a url m w ≡ respond_error a url e v
  unfolding answer_with
  answer_with-failed url m e w v failed =
      rw (answer_with, ap (λ r. r.0) failed, ap (λ r. r.1) failed) refl

  -- What an interaction went through that may change something.
  pub record Used (payload : Interaction) (w : W) : Type 0 where
    pub target : AlertTarget
    pub info : ChannelInfo
    pub action : BlockAction
    pub found : (a.targets.get_target slack a.tenant_id payload.channel.id w).0 ≡ ok target
    pub known :
        (get_channel_info a.client payload.channel.id (behind_target a payload w)).0 ≡ ok info
    pub by_creator : info.creator ≡ payload.user.id
    pub single : payload.actions ≡ action ∷ []
    pub use_of : Use a payload w target action

  interaction_answer-guarded :
      (payload : Interaction) (w : W)
      → Refused a payload w (interaction_answer a payload w) ⊎ Used payload w
  unfolding interaction_answer check_creator
  interaction_answer-guarded payload w =
      elim (Result-cases (a.targets.get_target slack a.tenant_id payload.channel.id w).0) [
        | inr (error, t) ↦ inl (record {
          error = error;
          world = behind_target a payload w;
          fails = rw (interaction_answer, t) refl;
          read = IsRead.of_target refl;
        })
        | inl (target, t) ↦
            elim (Result-cases
              (get_channel_info a.client payload.channel.id (behind_target a payload w)).0) [
                | inr (error, c) ↦ inl (record {
                  error = not_creator;
                  world = behind_channel a payload w;
                  fails = rw (interaction_answer, t, check_creator, c) refl;
                  read = IsRead.of_channel refl;
                })
                | inl (info, c) ↦ elim (Bool-cases (info.creator == payload.user.id)) [
                  | inr stranger ↦ inl (record {
                    error = not_creator;
                    world = behind_channel a payload w;
                    fails = rw (interaction_answer, t, check_creator, c, stranger) refl;
                    read = IsRead.of_channel refl;
                  })
                  | inl creator ↦ elim (only_action-cases a payload.actions) [
                    | inr wrong ↦ inl (record {
                      error = failure "invalid Slack interaction";
                      world = behind_channel a payload w;
                      fails = rw (interaction_answer, t, check_creator, c, creator, wrong) refl;
                      read = IsRead.of_channel refl;
                    })
                    | inl (action, single) ↦
                        (let command : Command = record {
                          target = target;
                          actor_user_id = payload.user.id;
                          action = Command.save;
                          arguments = [];
                          event_id = payload.trigger_id;
                        } in
                          let opened : interaction_answer a payload w
                              ≡ use_control a command action (behind_channel a payload w) =
                            ground (arith, t, c, creator, single) in
                          elim (use_control-guarded a payload w target action command single refl
                            refl) [
                              | inl r ↦ inl (subst (λ x. Refused a payload w x) (sym opened) r)
                              | inr u ↦ inr (record {
                                target = target;
                                info = info;
                                action = action;
                                found = t;
                                known = c;
                                by_creator = ==_path _ _ creator;
                                single = single;
                                use_of = u;
                              })
                            ])
                  ]
                ]
              ]
      ]

  -- What a refused interaction does: it answers its error behind reads alone.
  pub record OnlyAnswered (payload : Interaction) (w : W) : Type 0 where
    pub error : Error
    pub world : W
    pub read : IsRead a payload w world
    pub answers : process_interaction a payload w ≡ respond_error a payload.response_url error world

  -- An interaction either does no more than answer an error, behind reads alone of the target, of
  -- the channel and of the session that its control names; or it is by the creator of the channel,
  -- has one action, and this one either selects in a readable session, of that user and of the
  -- target of the channel, or is one of the two controls that end a session.
  pub process_interaction-Used :
      (payload : Interaction) (w : W) → OnlyAnswered payload w ⊎ Used payload w
  unfolding process_interaction
  process_interaction-Used payload w = elim (interaction_answer-guarded payload w) [
    | inr used ↦ inr used
    | inl r ↦ inl (record {
      error = r.error;
      world = r.world;
      read = r.read;
      answers =
          answer_with-failed payload.response_url (interaction_answer a payload) r.error w r.world
            r.fails;
    })
  ]

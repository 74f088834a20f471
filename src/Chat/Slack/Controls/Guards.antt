-- ===== src/Chat/Slack/Controls/Guards.antt =====
-- What a control of internal/chat/slack/webhook.go does behind the check of the creator.
use mathlib.Core.Path.{subst}
use crypto_price_alert.Base.{
  String, ◌≡◌, ◌⊎◌, ◌==◌, ◌||◌, not, string_eq, false, some, List, [], ◌∷◌, Result, ok, err, arith,
  Error, failure, ap, sym, ◌∙◌, refl, inl, inr, Result-cases, Option-cases, Bool-cases, ==_path,
}
use crypto_price_alert.Base.Text.{has_code, split_three}
use crypto_price_alert.Domain.Provider.{slack}
use crypto_price_alert.Domain.Target.{AlertTarget}
use crypto_price_alert.Chat.Command.{Command}
use crypto_price_alert.Chat.Session.{ConfigSession}
use crypto_price_alert.Chat.Slack.Types.{Interaction, BlockAction, Response}
use crypto_price_alert.Chat.Slack.Client.{get_channel_info}
use crypto_price_alert.Chat.Slack.Adapter.{Adapter}
use crypto_price_alert.Chat.Slack.Controls.{
  unsupported_control, only_action, control_session, select_control, end_control, use_control,
}

module _ {F W : Type 0} (a : Adapter F W) where
  -- The worlds behind the reads of the target and of the channel.
  abbrev pub behind_target : Interaction → W → W
  behind_target payload w = (a.targets.get_target slack a.tenant_id payload.channel.id w).1

  abbrev pub behind_channel : Interaction → W → W
  behind_channel payload w =
      (get_channel_info a.client payload.channel.id (behind_target payload w)).1

  -- The worlds that an interaction leads to by its reads alone: of the target, of the channel and of
  -- the session that its control names.
  pub data IsRead (payload : Interaction) (w v : W) : Type 0 where
    of_target : v ≡ behind_target payload w → IsRead payload w v
    of_channel : v ≡ behind_channel payload w → IsRead payload w v
    of_session :
        (action : BlockAction) (id kind choice : String)
        → payload.actions ≡ action ∷ []
        → split_three 124 action.value ≡ some (id, kind, choice)
        → v ≡ (a.sessions.get id (behind_channel payload w)).1
        → IsRead payload w v

  -- What a control does: it changes the selection of a readable session, of the user for the target,
  -- or it asks the chat service to end a session.
  pub data Use (payload : Interaction) (w : W) (target : AlertTarget) (action : BlockAction)
      : Type 0 where
    selects :
        (id kind choice : String) (session : ConfigSession)
        → split_three 124 action.value ≡ some (id, kind, choice)
        → (a.sessions.get id (behind_channel payload w)).0 ≡ ok session
        → session.target_id ≡ target.id
        → session.actor_user_id ≡ payload.user.id
        → Use payload w target action
    saves :
        has_code 124 action.value ≡ false
        → action.action_id ≡ "crypto_alert_save"
        → Use payload w target action
    cancels :
        has_code 124 action.value ≡ false
        → action.action_id ≡ "crypto_alert_cancel"
        → Use payload w target action

  -- An answer that fails behind reads alone.
  pub record Refused (payload : Interaction) (w : W) (r : Result Response × W) : Type 0 where
    pub error : Error
    pub world : W
    pub fails : r ≡ (err error, world)
    pub read : IsRead payload w world

  pub only_action-cases :
      (actions : List BlockAction)
      → ((action : BlockAction) × (actions ≡ action ∷ []))
        ⊎ (only_action actions ≡ err (failure "invalid Slack interaction"))
  only_action-cases [] = inr refl
  only_action-cases (action ∷ []) = inl (action, refl)
  only_action-cases (action ∷ next ∷ more) = inr refl

  select_control-guarded :
      (payload : Interaction) (w : W) (target : AlertTarget) (action : BlockAction)
      (command : Command)
      → payload.actions ≡ action ∷ []
      → command.target ≡ target
      → command.actor_user_id ≡ payload.user.id
      → Refused payload w (select_control a command action.value (behind_channel payload w))
        ⊎ Use payload w target action
  unfolding select_control control_session
  select_control-guarded payload w target action command single at by =
      let v = behind_channel payload w in
      elim (Option-cases (split_three 124 action.value)) [
        | inl absent ↦ inl (record {
          error = failure "invalid configuration control";
          world = v;
          fails = rw (select_control, absent) refl;
          read = IsRead.of_channel refl;
        })
        | inr ((id, kind, choice), parts) ↦ elim (Result-cases (a.sessions.get id v).0) [
          | inr (error, s) ↦ inl (record {
            error = failure "invalid configuration session";
            world = (a.sessions.get id v).1;
            fails = rw (select_control, parts, control_session, s) refl;
            read = IsRead.of_session action id kind choice single parts refl;
          })
          | inl (session, s) ↦
              elim (Bool-cases (
                not (session.target_id == command.target.id)
                || not (session.actor_user_id == command.actor_user_id))) [
                  | inl foreign ↦ inl (record {
                    error = failure "invalid configuration session";
                    world = (a.sessions.get id v).1;
                    fails = rw (select_control, parts, control_session, s, foreign) refl;
                    read = IsRead.of_session action id kind choice single parts refl;
                  })
                  | inr own ↦
                      (let same_target : session.target_id ≡ command.target.id = ground arith in
                        let same_actor : session.actor_user_id ≡ command.actor_user_id =
                          ground arith in
                        inr (
                          Use.selects id kind choice session parts s
                            (same_target ∙ ap (λ t. t.id) at) (same_actor ∙ by)))
                ]
        ]
      ]

  pub use_control-guarded :
      (payload : Interaction) (w : W) (target : AlertTarget) (action : BlockAction)
      (command : Command)
      → payload.actions ≡ action ∷ []
      → command.target ≡ target
      → command.actor_user_id ≡ payload.user.id
      → Refused payload w (use_control a command action (behind_channel payload w))
        ⊎ Use payload w target action
  unfolding use_control end_control
  use_control-guarded payload w target action command single at by =
      elim (Bool-cases (has_code 124 action.value)) [
        | inl barred ↦
            (let opened : use_control a command action (behind_channel payload w)
                  ≡ select_control a command action.value (behind_channel payload w) =
                rw (use_control, barred) refl in
              subst (λ r. Refused payload w r ⊎ Use payload w target action) (sym opened)
                (select_control-guarded payload w target action command single at by))
        | inr plain ↦ elim (Bool-cases (action.action_id == "crypto_alert_save")) [
          | inl save ↦ inr (Use.saves plain (==_path _ _ save))
          | inr other ↦ elim (Bool-cases (action.action_id == "crypto_alert_cancel")) [
            | inl cancel ↦ inr (Use.cancels plain (==_path _ _ cancel))
            | inr unknown ↦ inl (record {
              error = unsupported_control;
              world = behind_channel payload w;
              fails = rw (use_control, plain, end_control, other, unknown) refl;
              read = IsRead.of_channel refl;
            })
          ]
        ]
      ]

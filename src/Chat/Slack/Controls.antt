-- ===== src/Chat/Slack/Controls.antt =====
-- internal/chat/slack/webhook.go: what a control of the configuration blocks does
-- (`processInteraction`).
pub mod Guards
pub mod Authority
use crypto_price_alert.Base.{
  String, ◌==◌, string_eq, not, ◌||◌, none, some, List, [], ◌∷◌, Error, failure, errorf, Result, ok,
  err, if◌then◌else◌,
}
use crypto_price_alert.Base.Text.{has_code, split_three}
use crypto_price_alert.Base.Action.{Action, pure, raise, lift, ◌>>=◌, ◌>>◌}
use crypto_price_alert.Domain.Provider.{MarketProvider, slack}
use crypto_price_alert.Domain.Target.{AlertTarget}
use crypto_price_alert.Chat.Command
use crypto_price_alert.Chat.Command.{Command}
use crypto_price_alert.Chat.Session.{ConfigSession}
use crypto_price_alert.Chat.Selection
use crypto_price_alert.Chat.Slack.Types.{Interaction, BlockAction, Response}
use crypto_price_alert.Chat.Slack.Blocks.{configuration_blocks}
use crypto_price_alert.Chat.Slack.Client.{get_channel_info}
use crypto_price_alert.Chat.Slack.Adapter.{
  Adapter, toggle_string, toggle_interval, filter_strings, filter_intervals, ephemeral,
  provider_enabled, available_symbols, available_intervals, session_blocks, answer_with,
}

abbrev pub only_action : List BlockAction → Result BlockAction
only_action (action ∷ []) = ok action
only_action _ = err (failure "invalid Slack interaction")

abbrev pub unsupported_control : Error
unsupported_control = failure "unsupported configuration control"

abbrev pub not_creator : Error
not_creator = failure "only the channel creator can use this configuration control"

module _ {F W : Type 0} (a : Adapter F W) where
  -- The session with another provider, and with what this one offers of the selection.
  unfoldable pub with_provider : MarketProvider → ConfigSession → ConfigSession
  unfolding Selection.keep_allowed Selection.available_symbols Selection.available_intervals
  with_provider provider session = record session {
    selected_provider = provider;
    selected_symbols = filter_strings session.selected_symbols (available_symbols a provider);
    selected_intervals =
        filter_intervals session.selected_intervals (available_intervals a provider);
  }

  -- The `switch` on the kind of the control.
  unfoldable pub choose : String → String → ConfigSession → Result ConfigSession
  unfolding with_provider provider_enabled Selection.toggle
  choose kind value session =
      if kind == "provider"
      then (if not (provider_enabled a value)
          then err (errorf "market provider %q is not enabled" (value ∷ []))
          else ok (with_provider value session))
      else if kind == "symbol"
      then ok (record session { selected_symbols = toggle_string session.selected_symbols value })
      else if kind == "interval"
      then ok
          (record session { selected_intervals = toggle_interval session.selected_intervals value })
      else err unsupported_control

  -- The session of a control, which has to be the actor's own for the target.
  unfoldable pub control_session : String → AlertTarget → String → Action W ConfigSession
  control_session id target actor w =
      let (r, w1) = a.sessions.get id w in
      elim r [
        | err e ↦ (err (failure "invalid configuration session"), w1)
        | ok session ↦
            if not (session.target_id == target.id) || not (session.actor_user_id == actor)
            then (err (failure "invalid configuration session"), w1)
            else (ok session, w1)
      ]

  -- A control that changes the selection: session, kind and value between bars.
  unfoldable pub select_control : Command → String → Action W Response
  unfolding split_three control_session choose configuration_blocks Selection.available_symbols
      Selection.available_intervals
  select_control command value = elim (split_three 124 value) [
    | none ↦ raise (failure "invalid configuration control")
    | some (id, kind, choice) ↦ (do
      session ← control_session id command.target command.actor_user_id
      chosen ← lift (choose kind choice session)
      a.commands.update_session (record command { arguments = id ∷ [] }) chosen.selected_provider
          chosen.selected_symbols chosen.selected_intervals
      pure (ephemeral "Selection updated." (session_blocks a id chosen.selected_provider)))
  ]

  -- A control that ends the session.
  unfoldable pub end_control : Command → BlockAction → Action W Response
  end_control command action =
      if action.action_id == "crypto_alert_save"
      then (do
        response ← a.commands.handle (record command { arguments = action.value ∷ [] })
        pure (ephemeral "Configuration saved." []))
      else if action.action_id == "crypto_alert_cancel"
      then (do
        response ←
            a.commands.handle
              (record command { arguments = action.value ∷ []; action = Command.cancel })
        pure (ephemeral "Configuration cancelled." []))
      else raise unsupported_control

  unfoldable pub use_control : Command → BlockAction → Action W Response
  unfolding select_control end_control has_code
  use_control command action =
      if has_code 124 action.value
      then select_control command action.value
      else end_control command action

  -- What `GetChannelInfo` fails with is answered like a stranger.
  unfoldable pub check_creator : Interaction → Action W Unit
  unfolding get_channel_info
  check_creator payload w =
      let (r, w1) = get_channel_info a.client payload.channel.id w in
      elim r [
        | err e ↦ (err not_creator, w1)
        | ok info ↦
            if not (info.creator == payload.user.id) then (err not_creator, w1) else (ok tt, w1)
      ]

  unfoldable pub interaction_answer : Interaction → Action W Response
  unfolding check_creator use_control
  interaction_answer payload = do
    target ← a.targets.get_target slack a.tenant_id payload.channel.id
    check_creator payload
    action ← lift (only_action payload.actions)
    let command : Command = record {
      target = target;
      actor_user_id = payload.user.id;
      action = Command.save;
      arguments = [];
      event_id = payload.trigger_id;
    }
    use_control command action

  unfoldable pub process_interaction : Interaction → Action W Unit
  unfolding answer_with interaction_answer
  process_interaction payload = answer_with a payload.response_url (interaction_answer payload)

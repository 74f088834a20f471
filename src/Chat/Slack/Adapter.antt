-- ===== src/Chat/Slack/Adapter.antt =====
-- internal/chat/slack/webhook.go: the adapter, its answers and its slash commands.
use crypto_price_alert.Base.{
  String, Bool, true, ◌==◌, string_eq, not, ◌&&◌, ◌||◌, List, [], Error, failure, Result, ok, err,
  Status, contains, if◌then◌else◌,
}
use crypto_price_alert.Base.Text.{trim_space}
use crypto_price_alert.Base.Action.{Action, pure, total, ◌>>=◌}
use crypto_price_alert.Domain.Interval.{Interval, Duration}
use crypto_price_alert.Domain.Provider.{MarketProvider, slack}
use crypto_price_alert.Domain.Target.{AlertTarget}
use crypto_price_alert.Market.Provider.{ProviderResolver}
use crypto_price_alert.Repository.Ports.{Host, AlertTargetRepository, InboundEventRepository}
use crypto_price_alert.Chat.Command
use crypto_price_alert.Chat.Command.{Command, CommandAction}
use crypto_price_alert.Chat.Parser.{parse_command}
use crypto_price_alert.Chat.Service.{SessionStore}
use crypto_price_alert.Chat.Adapter.{CommandService}
use crypto_price_alert.Chat.Selection
use crypto_price_alert.Chat.Slack.Types.{SlashCommand, Block, Response}
use crypto_price_alert.Chat.Slack.Blocks.{configuration_blocks}
use crypto_price_alert.Chat.Slack.Client.{ApiClient, get_channel_info, respond}

-- The clock of the adapter is that of the host.
pub record Adapter (F W : Type 0) : Type 0 where
  pub client : ApiClient W
  pub targets : AlertTargetRepository W
  pub events : InboundEventRepository W
  pub commands : CommandService W
  pub sessions : SessionStore W
  pub signing_secret : String
  pub tenant_id : String
  pub expected_app_id : String
  pub expected_team_id : String
  pub symbols : List String
  pub intervals : List Interval
  pub providers : ProviderResolver F W
  pub replay_window : Duration
  pub host : Host W

-- `NewAdapter`; the wiring leaves no interface nil.
unfoldable pub new_adapter : {F W : Type 0} → Adapter F W → Result (Adapter F W)
unfolding trim_space
new_adapter settings =
    if trim_space settings.signing_secret == "" || trim_space settings.tenant_id == ""
    then err (failure "invalid Slack adapter settings")
    else ok (record settings { replay_window = 300000000000 })

-- `toggleString` and `toggleInterval`, which copy what the ones of Telegram change in place.
abbrev pub toggle_string : List String → String → List String
toggle_string = Selection.toggle

abbrev pub toggle_interval : List Interval → Interval → List Interval
toggle_interval = Selection.toggle

-- `filterStrings` and `filterIntervals`
abbrev pub filter_strings : List String → List String → List String
filter_strings = Selection.keep_allowed

abbrev pub filter_intervals : List Interval → List Interval → List Interval
filter_intervals = Selection.keep_allowed

abbrev pub ephemeral : String → List Block → Response
ephemeral text blocks = record { response_type = "ephemeral"; text = text; blocks = blocks }

module _ {F W : Type 0} (a : Adapter F W) where
  unfoldable pub provider_enabled : MarketProvider → Bool
  provider_enabled provider = contains a.providers.enabled provider

  abbrev pub available_symbols : MarketProvider → List String
  available_symbols = Selection.available_symbols a.providers a.symbols a.intervals

  abbrev pub available_intervals : MarketProvider → List Interval
  available_intervals = Selection.available_intervals a.providers a.symbols a.intervals

  unfoldable pub validate_context : String → String → Status
  validate_context app_id team_id =
      if not (a.expected_app_id == "") && not (app_id == a.expected_app_id)
      then err (failure "unexpected Slack app")
      else if not (a.expected_team_id == "") && not (team_id == a.expected_team_id)
      then err (failure "unexpected Slack team")
      else ok tt

  -- `respondError`
  unfoldable pub respond_error : String → Error → Action W Unit
  unfolding respond
  respond_error response_url e =
      respond a.client response_url (ephemeral "The request could not be completed." [])

  -- The end of `processSlash` and `processInteraction`: each of their failures is answered by
  -- `respondError`, and each of their answers by `Respond`.
  unfoldable pub answer_with : String → Action W Response → Action W Unit
  unfolding respond_error respond
  answer_with response_url m w =
      let (r, w1) = m w in
      elim r [
        | err e ↦ respond_error response_url e w1
        | ok response ↦ respond a.client response_url response w1
      ]

  unfoldable pub target_for_channel : String → String → Action W AlertTarget
  unfolding get_channel_info
  target_for_channel channel_id name = do
    info ← get_channel_info a.client channel_id
    id ← total a.host.new_id
    a.targets.find_or_create_target (record {
      id = id;
      provider = slack;
      tenant_id = a.tenant_id;
      external_chat_id = channel_id;
      display_name = name;
      creator_user_id = info.creator;
      enabled = true;
      created_at = 0;
      updated_at = 0;
    })

  -- The blocks of a session, with what its provider offers.
  abbrev pub session_blocks : String → MarketProvider → List Block
  session_blocks session_id provider =
      configuration_blocks session_id a.providers.enabled (available_symbols provider)
        (available_intervals provider)

  -- The answer to a command that the service has handled.
  unfoldable pub slash_response : CommandAction → String → Action W Response
  unfolding configuration_blocks Selection.available_symbols Selection.available_intervals
  slash_response action response =
      if action == Command.configure
      then (do
        session ← a.sessions.get response
        pure (
            ephemeral "Choose a market provider, symbols, and intervals:"
              (session_blocks response session.selected_provider)))
      else pure (ephemeral response [])

  unfoldable pub slash_answer : SlashCommand → AlertTarget → Action W Response
  unfolding slash_response parse_command
  slash_answer payload target = elim (parse_command payload.text) [
    | err e ↦ pure (ephemeral "Unknown command. Use /crypto-alert help." [])
    | ok (action, arguments) ↦ (do
      response ← a.commands.handle (record {
        target = target;
        actor_user_id = payload.user_id;
        action = action;
        arguments = arguments;
        event_id = payload.trigger_id;
      })
      slash_response action response)
  ]

  unfoldable pub process_slash : SlashCommand → Action W Unit
  unfolding answer_with target_for_channel slash_answer
  process_slash payload = answer_with payload.response_url (do
    target ← target_for_channel payload.channel_id payload.channel_name
    slash_answer payload target)

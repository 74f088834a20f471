-- ===== src/Chat/Service.antt =====
-- internal/chat/service.go: the dispatch of the chat commands over the configuration service and the
-- session store.
pub mod Authority
use Prim.Native.String.{◌++◌ as ◌<>◌}
use crypto_price_alert.Base.{
  ℕ, ◌-◌, ◌^◌, String, Bool, true, false, ◌==◌, nat_eq, string_eq, not, ◌||◌, List, [], ◌∷◌,
  failure, errorf, Error, Result, ok, err, Status, fail_if, is_config_not_found, negative64,
  if◌then◌else◌, ◌&&◌,
}
use crypto_price_alert.Base.Text.{trim_space, join, decimal}
use crypto_price_alert.Base.Action.{Action, pure, raise, lift, ◌>>=◌, ◌>>◌}
use crypto_price_alert.Domain.Interval.{Interval, Duration}
use crypto_price_alert.Domain.Provider.{MarketProvider}
use crypto_price_alert.Domain.AlertConfig.{AlertConfig}
use crypto_price_alert.Repository.Ports.{Host}
use crypto_price_alert.Chat.Command
use crypto_price_alert.Chat.Command.{Command, AuthorizationRequest, is_mutation}
use crypto_price_alert.Chat.Session
use crypto_price_alert.Chat.Session.{ConfigSession, new_config_session}

-- `ConfigurationService`; the arguments are in the order of the source.
pub record ConfigurationService (W : Type 0) : Type 0 where
  pub get_config : String → Action W AlertConfig
  pub get_or_create_config : String → String → Action W AlertConfig
  pub replace_config :
      String
      → MarketProvider
      → List String
      → List Interval
      → Bool
      → String
      → ℕ
      → Action W AlertConfig
  pub enable : String → String → ℕ → Action W AlertConfig
  pub pause : String → String → ℕ → Action W AlertConfig

-- `SessionStore`
pub record SessionStore (W : Type 0) : Type 0 where
  pub create : ConfigSession → Action W Unit
  pub get : String → Action W ConfigSession
  pub update : ConfigSession → Action W Unit
  pub delete : String → Action W Unit

pub record Service (W : Type 0) : Type 0 where
  pub configuration : ConfigurationService W
  pub authorize : AuthorizationRequest → Status
  pub sessions : SessionStore W
  pub session_ttl : Duration
  pub host : Host W

-- `NewService`; the wiring leaves no interface nil.
unfoldable pub new_service : {W : Type 0} → Service W → Result (Service W)
new_service settings =
    if settings.session_ttl == 0 then err (failure "invalid chat service settings") else ok settings

abbrev bool_text : Bool → String
bool_text true = "true"
bool_text false = "false"

-- `%d` of an `int64`
unfoldable pub int64_text : ℕ → String
int64_text n = if negative64 n then "-" <> decimal (2 ^ 64 - n) else decimal n

unfoldable pub config_text : AlertConfig → String
unfolding int64_text
config_text c =
    "enabled="
    <> bool_text c.enabled
    <> " provider="
    <> c.market_provider
    <> " symbols="
    <> join c.symbols ","
    <> " intervals="
    <> join c.intervals ","
    <> " version="
    <> int64_text c.version

unfoldable pub enabled_text : AlertConfig → String
unfolding int64_text
enabled_text c = "enabled=" <> bool_text c.enabled <> " version=" <> int64_text c.version

-- The test of the actor and of the target that guards the use of a session.
unfoldable pub owns : ConfigSession → Command → Bool
owns session command =
    session.target_id == command.target.id && session.actor_user_id == command.actor_user_id

abbrev pub not_owner : Error
not_owner = failure "session does not belong to actor and target"

-- `len(command.Arguments) != 1`
abbrev pub only_argument : String → List String → Result String
only_argument message (id ∷ []) = ok id
only_argument message _ = err (failure message)

module _ {W : Type 0} (s : Service W) where
  unfoldable pub save_session : Command → Action W Unit
  unfolding owns
  save_session command = do
    id ← lift (only_argument "save requires a session ID" command.arguments)
    session ← s.sessions.get id
    lift (fail_if (not (owns session command)) not_owner)
    config ← s.configuration.get_config session.target_id
    lift (
        fail_if (not (config.version == session.base_config_version))
          (failure "configuration changed while session was open"))
    replaced ←
        s.configuration.replace_config session.target_id session.selected_provider
          session.selected_symbols session.selected_intervals config.enabled command.actor_user_id
          session.base_config_version
    s.sessions.delete session.session_id

  unfoldable pub delete_owned_session : String → Command → Action W Unit
  unfolding owns
  delete_owned_session id command = do
    session ← s.sessions.get id
    lift (fail_if (not (owns session command)) not_owner)
    s.sessions.delete id

  -- `UpdateSession`
  unfoldable pub update_session :
      Command → MarketProvider → List String → List Interval → Action W Unit
  unfolding owns
  update_session command provider symbols intervals = do
    lift (
        s.authorize (record {
          target = command.target;
          actor_user_id = command.actor_user_id;
          action = Command.configure;
        }))
    id ← lift (only_argument "session update requires a session ID" command.arguments)
    session ← s.sessions.get id
    lift (fail_if (not (owns session command)) not_owner)
    s.sessions.update (record session {
      selected_provider = provider;
      selected_symbols = symbols;
      selected_intervals = intervals;
    })

  unfoldable pub show_config : Command → Action W String
  unfolding config_text is_config_not_found
  show_config command w =
      let (r, w1) = s.configuration.get_config command.target.id w in
      elim r [
        | ok config ↦ (ok (config_text config), w1)
        | err e ↦ if is_config_not_found e then (ok "Not found alert config", w1) else (err e, w1)
      ]

  unfoldable pub open_session : Command → Action W String
  unfolding new_config_session
  open_session command w =
      let (r, w1) =
        s.configuration.get_or_create_config command.target.id command.actor_user_id w in
      elim r [
        | err e ↦ (err e, w1)
        | ok config ↦
            let (id, w2) = s.host.new_id w1 in
            let (now, w3) = s.host.now w2 in
            (do
              session ← lift (
                  new_config_session id now command.target.id command.actor_user_id config
                    s.session_ttl)
              s.sessions.create session
              pure session.session_id)
              w3
      ]

  -- `Enable` and `Pause`
  unfoldable pub switch : Command → Action W String
  unfolding enabled_text
  switch command = do
    config ← s.configuration.get_config command.target.id
    updated ←
        if command.action == Command.enable
        then s.configuration.enable command.target.id command.actor_user_id config.version
        else s.configuration.pause command.target.id command.actor_user_id config.version
    pure (enabled_text updated)

  unfoldable pub save : Command → Action W String
  save command = do save_session command; pure "Saved config"

  unfoldable pub cancel : Command → Action W String
  cancel command = do
    id ← lift (only_argument "cancel requires a session ID" command.arguments)
    delete_owned_session id command
    pure "cancelled"

  -- The `switch` of `Handle`
  unfoldable pub dispatch : Command → Action W String
  dispatch command =
      if command.action == Command.help
      then pure "help, configure, show, enable, pause, test"
      else if command.action == Command.show
      then show_config command
      else if command.action == Command.configure
      then open_session command
      else if command.action == Command.enable || command.action == Command.pause
      then switch command
      else if command.action == Command.save
      then save command
      else if command.action == Command.cancel
      then cancel command
      else if command.action == Command.test
      then pure "test alert requested"
      else raise (errorf "unsupported action %q" (command.action ∷ []))

  -- `Handle`
  unfoldable pub handle : Command → Action W String
  handle command = do
    lift (fail_if (trim_space command.actor_user_id == "") (failure "actor identity is required"))
    lift (
        if is_mutation command.action
        then s.authorize (record {
          target = command.target;
          actor_user_id = command.actor_user_id;
          action = command.action;
        })
        else ok tt)
    dispatch command

-- ===== src/Server/Chats.antt =====
-- cmd/server/main.go: the chat handlers, over the stores and the registry of the program.
pub mod Authority
use crypto_price_alert.Base.{String, true, false, Result, ◌>>=◌}
use crypto_price_alert.Config.Settings.{Config}
use crypto_price_alert.Market.Provider.{ProviderResolver}
use crypto_price_alert.Repository.Ports.{
  Host, AlertTargetRepository, AlertConfigRepository, InboundEventRepository,
}
use crypto_price_alert.Service.Configuration
use crypto_price_alert.Service.Configuration.{Configuration}
use crypto_price_alert.Chat.Command.{authorize_creator}
use crypto_price_alert.Chat.Service
use crypto_price_alert.Chat.Service.{Service, ConfigurationService, SessionStore}
use crypto_price_alert.Chat.Adapter.{CommandService, HttpClient}
use crypto_price_alert.Chat.Telegram.Client as TelegramClient
use crypto_price_alert.Chat.Telegram.Adapter as TelegramAdapter
use crypto_price_alert.Chat.Slack.Client as SlackClient
use crypto_price_alert.Chat.Slack.Types as SlackTypes
use crypto_price_alert.Chat.Slack.Adapter as SlackAdapter

-- What the handlers share: the repositories, the registry, the store of the sessions that
-- `NewMemorySessionStore` makes, and the host.
pub record Backend (F W : Type 0) : Type 0 where
  pub targets : AlertTargetRepository W
  pub configs : AlertConfigRepository W
  pub events : InboundEventRepository W
  pub providers : ProviderResolver F W
  pub sessions : SessionStore W
  pub host : Host W

-- The chat service as the adapters use it.
unfoldable pub command_port : {W : Type 0} → Service W → CommandService W
unfolding Service.handle Service.update_session
command_port s = record { handle = Service.handle s; update_session = Service.update_session s }

module _ {F W : Type 0} where
  -- The configuration service as the chat uses it.
  unfoldable pub configuration_port : Configuration F W → ConfigurationService W
  unfolding Configuration.get_config Configuration.get_or_create_config Configuration.replace_config
      Configuration.set_enabled
  configuration_port s = record {
    get_config = Configuration.get_config s;
    get_or_create_config = Configuration.get_or_create_config s;
    replace_config = Configuration.replace_config s;
    enable = λ id by version. Configuration.set_enabled s id by version true;
    pause = λ id by version. Configuration.set_enabled s id by version false;
  }

  -- The beginning of `newTelegramChatHandler` and `newSlackChatHandler`
  unfoldable pub new_chat_service : Config → Backend F W → Result (Service W)
  unfolding Configuration.new_service configuration_port Service.new_service authorize_creator
  new_chat_service c b = do
    configuration ←
        Configuration.new_service b.targets b.configs c.market.symbols c.market.intervals
          c.chat.max_symbols_per_target c.chat.max_targets b.providers c.market.default_provider
    Service.new_service (record {
      configuration = configuration_port configuration;
      authorize = authorize_creator;
      sessions = b.sessions;
      session_ttl = 900000000000;
      host = b.host;
    })

  unfoldable pub new_telegram_chat_handler :
      Config
      → Backend F W
      → HttpClient TelegramClient.Payload W
      → TelegramClient.Decoder
      → Result (TelegramAdapter.Adapter F W)
  unfolding new_chat_service command_port
  new_telegram_chat_handler c b http decoder = do
    service ← new_chat_service c b
    client ← TelegramClient.new_api_client c.chat.telegram.bot_token "" http decoder
    TelegramAdapter.new_adapter (record {
      client = client;
      targets = b.targets;
      events = b.events;
      commands = command_port service;
      sessions = b.sessions;
      webhook_secret = c.chat.telegram.webhook_secret;
      tenant_id = "default";
      allowed_symbols = c.market.symbols;
      allowed_intervals = c.market.intervals;
      providers = b.providers;
      host = b.host;
    })

  unfoldable pub new_slack_chat_handler :
      Config
      → Backend F W
      → HttpClient SlackClient.Payload W
      → (String → Result SlackTypes.ApiResponse)
      → Result (SlackAdapter.Adapter F W)
  unfolding new_chat_service command_port
  new_slack_chat_handler c b http decode = do
    service ← new_chat_service c b
    client ← SlackClient.new_api_client c.chat.slack.bot_token "" http decode
    SlackAdapter.new_adapter (record {
      client = client;
      targets = b.targets;
      events = b.events;
      commands = command_port service;
      sessions = b.sessions;
      signing_secret = c.chat.slack.signing_secret;
      tenant_id = "default";
      expected_app_id = c.chat.slack.app_id;
      expected_team_id = c.chat.slack.team_id;
      symbols = c.market.symbols;
      intervals = c.market.intervals;
      providers = b.providers;
      replay_window = 0;
      host = b.host;
    })

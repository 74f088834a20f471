-- ===== src/Config/Check.antt =====
-- `Config.Validate` of internal/config/config.go, check by check.
use crypto_price_alert.Base.{
  String, Bool, true, ◌==◌, nat_eq, string_eq, contains, not, ◌&&◌, ◌||◌, none, some, List, [], ◌∷◌,
  failure, errorf, wrapped, Result, ok, err, Status, fail_if, ◌>>=◌, ◌>>◌, ltb, negative64, empty?,
  if◌then◌else◌,
}
use crypto_price_alert.Base.Dict.{Dict, lookup}
use crypto_price_alert.Base.Text.{trim_space, to_upper, to_lower}
use crypto_price_alert.Domain.Interval
use crypto_price_alert.Domain.Interval.{Interval}
use crypto_price_alert.Domain.Location.{Location}
use crypto_price_alert.Domain.Provider
use crypto_price_alert.Domain.Provider.{MarketProvider, binance, coin_market_cap}
use crypto_price_alert.Scheduler.Clock.{parse_clock}
use crypto_price_alert.Config.Settings.{
  Config, AppConfig, DatabaseConfig, MarketConfig, ProviderConfig, ProviderSymbolConfig,
  ScheduleConfig, NotificationsConfig, ChatConfig,
}

unfoldable pub blank : String → Bool
blank value = trim_space value == ""

unfoldable pub normal_symbol : String → String
normal_symbol symbol = to_upper (trim_space symbol)

unfoldable pub normal_name : String → String
normal_name name = to_lower (trim_space name)

-- The time zone, the address and the database. `load` is `time.LoadLocation`.
unfoldable pub check_app : (String → Result Location) → AppConfig → DatabaseConfig → Status
unfolding blank
check_app load app database = do
  fail_if (app.timezone == "") (failure "app.timezone is required")
  (elim (load app.timezone) [ err e ↦ err (wrapped "app.timezone: %w" e) | ok zone ↦ ok tt ])
  fail_if (app.http_address == "") (failure "app.http.address is required")
  fail_if (blank database.url) (failure "database.url is required")
  fail_if (negative64 database.notification_jobs_retention)
      (failure "database.notification_jobs_retention must not be negative")

-- The loop over the symbols; `seen` holds the normal forms before, and the result all of them.
unfoldable pub check_symbols : List String → List String → Result (List String)
unfolding normal_symbol
check_symbols seen [] = ok seen
check_symbols seen (raw ∷ rest) =
    let symbol = normal_symbol raw in
    let others = check_symbols (symbol ∷ seen) rest in
    if symbol == ""
    then err (failure "market.symbols contains an empty symbol")
    else if contains seen symbol
    then err (errorf "market.symbols contains duplicate %q" (symbol ∷ []))
    else others

unfoldable pub check_intervals : List Interval → List String → Status
unfolding normal_name
check_intervals seen [] = ok tt
check_intervals seen (raw ∷ rest) =
    let interval = normal_name raw in
    let others = check_intervals (interval ∷ seen) rest in
    elim (Interval.validate interval) [
      | err e ↦ err (wrapped "market.intervals: %w" e)
      | ok valid ↦
          if contains seen interval
          then err (errorf "market.intervals contains duplicate %q" (interval ∷ []))
          else others
    ]

-- The body of the loop over the symbols of one provider.
unfoldable pub check_mapping : List String → MarketProvider → String → ProviderSymbolConfig → Status
unfolding normal_symbol blank
check_mapping symbols provider raw mapping =
    if not (contains symbols (normal_symbol raw))
    then err
        (errorf "market.providers.%s.symbols.%s is not in market.symbols" (provider ∷ raw ∷ []))
    else if provider == binance
    then fail_if (blank mapping.symbol)
        (errorf "market.providers.%s.symbols.%s.symbol is required" (provider ∷ raw ∷ []))
    else if provider == coin_market_cap
    then fail_if (blank mapping.platform || blank mapping.address) (
        errorf "market.providers.%s.symbols.%s requires platform and address" (provider ∷ raw ∷ []))
    else ok tt

unfoldable pub check_mappings :
    List String → MarketProvider → Dict String ProviderSymbolConfig → Status
unfolding check_mapping
check_mappings symbols provider [] = ok tt
check_mappings symbols provider ((raw, mapping) ∷ rest) =
    let others = check_mappings symbols provider rest in
    check_mapping symbols provider raw mapping >> others

-- A unit that is left out is `usd`, the only one for CoinMarketCap.
unfoldable pub check_unit : MarketProvider → String → Status
check_unit provider unit =
    fail_if (provider == coin_market_cap && not (unit == "") && not (to_lower unit == "usd"))
      (errorf "market.providers.%s.unit %q is unsupported" (provider ∷ unit ∷ []))

unfoldable pub check_providers : List String → Dict MarketProvider ProviderConfig → Status
unfolding check_mappings check_unit
check_providers symbols [] = ok tt
check_providers symbols ((provider, config) ∷ rest) =
    let others = check_providers symbols rest in
    Provider.validate provider
    >> (if not config.enabled
        then others
        else check_unit provider config.unit
          >> check_mappings symbols provider config.symbols
          >> others)

-- The default provider in its normal form must stand in the map.
unfoldable pub check_default : MarketConfig → Status
unfolding normal_name
check_default market =
    let name = normal_name market.default_provider in
    elim (Provider.validate name) [
      | err e ↦ err (wrapped "market.default_provider: %w" e)
      | ok valid ↦
          fail_if
            (elim (lookup name market.providers) [ none ↦ true | some config ↦ not config.enabled ])
            (errorf "market.default_provider %q must name an enabled provider" (name ∷ []))
    ]

unfoldable pub check_market : MarketConfig → Status
unfolding check_symbols check_intervals check_default check_providers
check_market market = do
  fail_if (empty? market.symbols) (failure "market.symbols must not be empty")
  fail_if (empty? market.intervals) (failure "market.intervals must not be empty")
  symbols ← check_symbols [] market.symbols
  check_intervals [] market.intervals
  fail_if (empty? market.providers) (failure "market.providers must not be empty")
  check_default market
  check_providers symbols market.providers

-- The error of `time.Parse` is given by the text that it refuses.
unfoldable pub check_clock : String → String → Status
check_clock message value = elim (parse_clock value) [
  | none ↦ err (errorf message (value ∷ []))
  | some minutes ↦ ok tt
]

unfoldable pub check_schedule : ScheduleConfig → Status
unfolding check_clock normal_name
check_schedule schedule = do
  (if schedule.tick_interval == ""
      then ok tt
      else (elim (Interval.validate (normal_name schedule.tick_interval)) [
        | err e ↦ err (wrapped "schedule.tick_interval: %w" e)
        | ok valid ↦ ok tt
      ]))
  check_clock "schedule.active_from: %w" schedule.active_from
  check_clock "schedule.active_until: %w" schedule.active_until

unfoldable pub check_notifications : NotificationsConfig → Status
check_notifications n = do
  fail_if (n.telegram.enabled && (n.telegram.bot_token == "" || n.telegram.chat_id == ""))
      (failure "enabled telegram requires bot_token and chat_id")
  fail_if (n.slack.enabled && n.slack.webhook_url == "")
      (failure "enabled slack requires webhook_url")
  fail_if (not n.telegram.enabled && not n.slack.enabled)
      (failure "at least one notification channel must be enabled")

unfoldable pub check_limits : Config → Status
check_limits c = do
  fail_if (ltb c.max_attempts 1) (failure "retry.max_attempts must be at least 1")
  fail_if (c.initial_backoff == 0) (failure "retry.initial_backoff must be positive")
  fail_if (ltb c.market_requests 1) (failure "concurrency.market_requests must be at least 1")

unfoldable pub check_chat : ChatConfig → Status
unfolding blank
check_chat chat = if not chat.enabled then ok tt else (do
  fail_if (ltb chat.max_symbols_per_target 1)
      (failure "chat.max_symbols_per_target must be at least 1")
  fail_if (ltb chat.max_targets 1) (failure "chat.max_targets must be at least 1")
  fail_if (blank chat.webhook_base_url)
      (failure "chat.webhook_base_url is required when chat is enabled")
  fail_if
      (chat.telegram.enabled
        && (blank chat.telegram.bot_token || blank chat.telegram.webhook_secret))
      (failure "enabled chat.telegram requires bot_token and webhook_secret")
  fail_if (chat.slack.enabled && (blank chat.slack.signing_secret || blank chat.slack.bot_token))
      (failure "enabled chat.slack requires signing_secret and bot_token")
  fail_if (not chat.telegram.enabled && not chat.slack.enabled)
      (failure "at least one chat platform must be enabled"))

-- `Validate`
unfoldable pub validate : (String → Result Location) → Config → Status
unfolding check_app check_market check_schedule check_notifications check_limits check_chat
validate load c = do
  check_app load c.app c.database
  check_market c.market
  check_schedule c.schedule
  check_notifications c.notifications
  check_limits c
  check_chat c.chat

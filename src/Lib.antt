-- ===== src/Lib.antt =====
-- crypto-price-alert: a service that sends price alerts of crypto currencies to chats. At the end of
-- each configured interval it reads one candle for each symbol and sends the change of the price to the
-- chats whose configuration asks for it; the creator of a chat changes this configuration by commands.
--
-- The parts and their files. Each file opens with the path of the code it is about.
--   Domain        internal/domain/types.go: the values, one module for each, with their `Validate`
--   Config        internal/config/config.go: the settings, and the validation of them
--   Market        internal/market: the interface of the providers, the clients of Binance and of
--                 CoinMarketCap, the static resolver, the registry
--   Notification  internal/notification: the text of an alert, the routing to a channel, the senders
--                 with their retries, the dry run
--   Repository    internal/repository: the interfaces of the stores, and the PostgreSQL repository over
--                 one operation of the database for each statement
--   Service       internal/service: the change of a price, the alert service for a caller's own runs,
--                 and the configuration service
--   Scheduler     internal/scheduler: the period engine, the tick, the two executors and the cleanup
--   Chat          internal/chat: the parser, the authorizer, the sessions, the chat service, and in
--                 Chat.Telegram and Chat.Slack the adapters of internal/chat/telegram and
--                 internal/chat/slack: their webhooks, commands, buttons and API clients
--   Api           internal/api/handler.go: the handlers of the HTTP interface
--   Server        cmd/server/main.go: the notifiers, the executors with the scheduler, the cleanup and
--                 the chat handlers made of the settings
--   Base          what the others share: results and errors, maps, texts, lists, numbers
--   Tests         runs of the definitions and the theorems at concrete inputs
-- `Scheduler.Tick` asks `Scheduler.Period` whether an interval is due and calls `Scheduler.Target`,
-- which reads the targets and their configurations, claims a job row for each symbol, fetches each
-- candle once by a provider, and sends one message to each target; without targets it hands over to
-- `Scheduler.Executor`. A webhook of `Chat.Telegram` or `Chat.Slack` authenticates a request, records
-- its event so that a redelivery changes nothing, and lets the adapter answer it; a command goes to
-- `Chat.Service`, which reads and changes the configurations that `Service.Configuration` checks, and a
-- button changes a session of `Chat.Session`. `Api.Handler` runs `Service.Alert`. `Config` holds the
-- settings, from which `Server` makes the notifiers, the schedulers and the chat handlers.
--
-- How the code is read:
--   * A function of Go that changes something is a function over a world `W`. The repositories, the
--     providers, the notifiers, the clock and the source of identifiers are records of such functions;
--     what a theorem relies on of them is a record of laws beside the theorem.
--   * `(value, error)` is `Result`, an error its format with its values; `errors.Is` is a function on it.
--   * A nil pointer or interface is `none`. Arguments that the wiring never leaves nil are not optional.
--   * An instant is the number of nanoseconds since Go's zero time, and subtraction stops there.
--   * A version, a total and a pause (`int64`) are 64-bit patterns; settings that are only compared
--     with 0 or 1 are natural numbers, in which a negative one behaves like 0.
--   * `float64` is a type with the operations and the texts that the code uses, as parameters; a time
--     zone is its local midnight, its clock and its name. Case mapping is that of ASCII, and white
--     space that of Latin-1.
--   * A mutex makes the calls follow one another. A goroutine that a webhook starts is a task, which is
--     part of the result of the handler. Logging and `context` are left out.
--   * The HTTP client, the decoding of a request, JSON, the building of a URL, the HMAC and a timer are
--     parameters, which the definitions take as arguments.
--   * The loop of the cleanup runs on fuel; one unit for each batch of 1000 stale rows, and one more, is
--     enough. The other loops are over a list or count down.
--   * A map is the list of its entries in the order in which the code's iteration meets them.
--
-- Not modelled: the connection to the database and its migration, which are calls of gorm and SQL; the
-- reading of the settings from YAML and the environment; the routes, which echo registers; the running of
-- the cron jobs, the listening and the shutting down of the process; the log.
pub mod Base
pub mod Domain
pub mod Market
pub mod Notification
pub mod Repository
pub mod Service
pub mod Scheduler
pub mod Chat
pub mod Config
pub mod Api
pub mod Server
mod Tests

-- ===== src/Server/Notifiers.antt =====
-- cmd/server/main.go: the channels of the program, and their names.
pub mod Start
use crypto_price_alert.Base.{
  String, Bool, List, [], ◌∷◌, ◌++◌, failure, wrapped, Result, ok, err, empty?, ◌>>=◌, ◌>>◌,
  fail_if, if◌then◌else◌, not,
}
use crypto_price_alert.Config.Settings.{Config}
use crypto_price_alert.Notification.Notifier.{Notifier}
use crypto_price_alert.Notification.Channels.{
  Channel, new_telegram_notifier, new_slack_notifier, new_slack_bot_notifier, telegram_notifier,
  slack_notifier, slack_bot_notifier, dry_run_notifier,
}

-- `fmt.Errorf` with `%w`
abbrev wrap : {A : Type 0} → String → Result A → Result A
wrap message (ok a) = ok a
wrap message (err e) = err (wrapped message e)

-- A list that is there if the test holds.
abbrev only_if : {A : Type 0} → Bool → Result (List A) → Result (List A)
only_if test list = if test then list else ok []

-- `notifierNames`
unfoldable pub notifier_names : Config → List String
notifier_names c =
    (if c.notifications.telegram.enabled then "telegram" ∷ [] else [])
    ++ (if c.notifications.slack.enabled then "slack" ∷ [] else [])

module _ {W : Type 0} (channel : Channel W) where
  unfoldable pub new_legacy_telegram : Config → Result (List (Notifier W))
  unfolding new_telegram_notifier telegram_notifier dry_run_notifier
  new_legacy_telegram c = if c.notifications.dry then ok (dry_run_notifier ∷ []) else (do
    n ← wrap "telegram: %w" (
        new_telegram_notifier (record {
          bot_token = c.notifications.telegram.bot_token;
          chat_id = c.notifications.telegram.chat_id;
          base_url = "";
          channel = channel;
          max_attempts = c.max_attempts;
          backoff = c.initial_backoff;
        }))
    ok (telegram_notifier n ∷ []))

  unfoldable pub new_legacy_slack : Config → Result (List (Notifier W))
  unfolding new_slack_notifier slack_notifier dry_run_notifier
  new_legacy_slack c = if c.notifications.dry then ok (dry_run_notifier ∷ []) else (do
    n ← wrap "slack: %w" (
        new_slack_notifier (record {
          webhook_url = c.notifications.slack.webhook_url;
          channel = channel;
          max_attempts = c.max_attempts;
          backoff = c.initial_backoff;
        }))
    ok (slack_notifier n ∷ []))

  -- `newNotifiers`
  unfoldable pub new_notifiers : Config → Result (List (Notifier W))
  unfolding new_legacy_telegram new_legacy_slack
  new_notifiers c = do
    telegram ← only_if c.notifications.telegram.enabled (new_legacy_telegram c)
    slack ← only_if c.notifications.slack.enabled (new_legacy_slack c)
    fail_if (empty? (telegram ++ slack)) (failure "no notification channels are enabled")
    ok (telegram ++ slack)

  unfoldable pub new_target_telegram : Config → Result (List (Notifier W))
  unfolding new_telegram_notifier telegram_notifier
  new_target_telegram c = do
    n ← wrap "target telegram: %w" (
        new_telegram_notifier (record {
          bot_token = c.chat.telegram.bot_token;
          chat_id = "target";
          base_url = "";
          channel = channel;
          max_attempts = c.max_attempts;
          backoff = c.initial_backoff;
        }))
    ok (telegram_notifier n ∷ [])

  unfoldable pub new_target_slack : Config → Result (List (Notifier W))
  unfolding new_slack_bot_notifier slack_bot_notifier
  new_target_slack c = do
    n ← wrap "target slack: %w" (
        new_slack_bot_notifier (record {
          bot_token = c.chat.slack.bot_token;
          base_url = "";
          channel = channel;
          max_attempts = c.max_attempts;
          backoff = c.initial_backoff;
        }))
    ok (slack_bot_notifier n ∷ [])

  -- `newTargetNotifiers`
  unfoldable pub new_target_notifiers : Config → List (Notifier W) → Result (List (Notifier W))
  unfolding new_target_telegram new_target_slack dry_run_notifier
  new_target_notifiers c legacy =
      if not c.chat.enabled
      then ok legacy
      else if c.notifications.dry
      then ok (dry_run_notifier ∷ [])
      else (do
        telegram ← only_if c.chat.telegram.enabled (new_target_telegram c)
        slack ← only_if c.chat.slack.enabled (new_target_slack c)
        ok (if empty? (telegram ++ slack) then legacy else telegram ++ slack))

-- ===== src/Tests/Runs.antt =====
-- Runs of the alert service and of the retries, and their theorems there.
use crypto_price_alert.Base.{
  ℕ, ◌+◌, ◌*◌, ◌≡◌, ◌≤◌, refl, true, false, ◌==◌, string_eq, nat_eq, none, some, [], ◌∷◌, map, ok,
  ok?, if◌then◌else◌,
}
use crypto_price_alert.Base.Text.{decimal}
use crypto_price_alert.Domain.Interval.{hour, day}
use crypto_price_alert.Domain.Period.{Period}
use crypto_price_alert.Market.Provider.{static_resolver}
use crypto_price_alert.Notification.Message.{build_message, render_message}
use crypto_price_alert.Notification.Retry.{Transport, judge, attempts, send_with_retry}
use crypto_price_alert.Notification.Retry.Attempts.{
  Counted, sends-send_with_retry, Delivered, send_with_retry-Delivered,
}
use crypto_price_alert.Service.Alert.{fetch_all, outcome_of, run, publish}
use crypto_price_alert.Service.Alert.Settings.{AlertService, RunResult}
use crypto_price_alert.Service.Alert.Runs.{symbols-run, as_dry, dry_run-run}
use crypto_price_alert.Service.Change.{calculate_change}
use crypto_price_alert.Tests.World.{World, start, floats, host, market, notifier, utc}

abbrev period : Period
period = record { interval = "1h"; start = 9 * day + 9 * hour; end = 9 * day + 10 * hour }

abbrev pub service : AlertService ℕ World
service = record {
  floats = floats;
  host = host;
  providers = static_resolver (some market);
  default_provider = "binance";
  notifiers = notifier ∷ [];
  notifier_names = "slack" ∷ [];
  default_symbols = "BTC" ∷ [];
  location = some utc;
}

abbrev result : RunResult ℕ
result = record {
  interval = "1h";
  period_start = period.start;
  period_end = period.end;
  results =
      record {
        symbol = "BTC";
        open_price = 10;
        close = 20;
        change_pct = 100;
        volume = 5;
        unavailable = false;
        error = "";
      }
      ∷ [];
  message_preview = "📊 Crypto 1h Update\nhh:mm → hh:mm UTC\nBTC      $20 100% 🟢 Vol: 5";
  dry_run = true;
  sent = none;
}

dry_ok : ok? (run service market none "1h" period [] true start).0 ≡ true
unfolding run publish fetch_all outcome_of calculate_change build_message decimal string_eq nat_eq
dry_ok = refl

reported : (run service market none "1h" period [] true start).0 ≡ ok result
unfolding run publish fetch_all outcome_of calculate_change build_message render_message decimal
    string_eq nat_eq
reported = refl

symbols-run_example : map (λ r. r.symbol) result.results ≡ "BTC" ∷ []
symbols-run_example = symbols-run service market none "1h" period [] true start result reported

dry_run-run_example :
    (run service market none "1h" period [] true start).0
    ≡ as_dry service (run service market none "1h" period [] false start).0
dry_run-run_example = dry_run-run service market none "1h" period [] start

-- A server that is busy at first: the world counts the requests.
abbrev server : Transport ℕ
server = record {
  request = ok tt;
  send = λ w. (ok (record { status_code = if w == 0 then 503 else 200; body = ok "" }), w + 1);
  wait = λ d w. (ok tt, w);
}

server-Counted : Counted server (λ w. w)
server-Counted = record { after_send = λ w. refl; after_wait = λ d w. refl }

sends-send_with_retry_example : (send_with_retry server 1 3 0).1 ≤ 0 + 3
sends-send_with_retry_example = sends-send_with_retry server 1 (λ w. w) server-Counted 3 0

second_try : (send_with_retry server 1 3 0).0 ≡ ok tt
unfolding send_with_retry attempts judge nat_eq
second_try = refl

send_with_retry-Delivered_example : Delivered server 1 (send_with_retry server 1 3 0)
send_with_retry-Delivered_example = send_with_retry-Delivered server 1 2 0 second_try

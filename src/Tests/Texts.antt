-- ===== src/Tests/Texts.antt =====
-- Runs of the text functions.
use crypto_price_alert.Base.{◌≡◌, refl, [], ◌∷◌, string_eq, ok, some}
use crypto_price_alert.Base.Text.{trim_space, to_upper, fields, decimal}
use crypto_price_alert.Chat.Parser.{parse_command}
use crypto_price_alert.Scheduler.Clock.{parse_clock}

upper_trim : to_upper (trim_space "  btcUsdt ") ≡ "BTCUSDT"
unfolding to_upper trim_space
upper_trim = refl

fields_test : fields " /help@x  a b " ≡ "/help@x" ∷ "a" ∷ "b" ∷ []
unfolding fields
fields_test = refl

decimal_test : decimal 1048576 ≡ "1048576"
unfolding decimal
decimal_test = refl

clock_test : parse_clock "06:30" ≡ some 390
unfolding parse_clock
clock_test = refl

-- The cases of internal/chat/parser_test.go
parse_suffix : parse_command "/crypto-alert@MyBot Configure now" ≡ ok ("configure", "now" ∷ [])
unfolding parse_command string_eq
parse_suffix = refl

parse_plain : parse_command "/config@MyBot a" ≡ ok ("configure", "a" ∷ [])
unfolding parse_command string_eq
parse_plain = refl

-- ===== src/Chat/Slack/Signature.antt =====
-- internal/chat/slack/signature.go. The hexadecimal HMAC of a secret and a message is a parameter.
pub mod Replay
use Prim.Native.String.{◌++◌ as ◌<>◌}
use crypto_price_alert.Base.{
  ℕ, ◌+◌, ◌-◌, ◌*◌, ◌^◌, String, Bool, true, ◌==◌, nat_eq, string_eq, not, ◌&&◌, ◌||◌, Option, none,
  some, failure, Status, fail_if, ◌>>◌, ltb, if◌then◌else◌,
}
use crypto_price_alert.Base.Text.{trim_space}
use crypto_price_alert.Base.Text.Integers.{parse_int}
use crypto_price_alert.Domain.Interval.{Time, Duration, second, unix_epoch}

-- The test that `now` and `time.Unix(seconds, 0)` are more than the window apart. What is subtracted on
-- one side is added on the other.
unfoldable pub is_stale : Time → Duration → Bool × ℕ → Bool
is_stale now window (negative, seconds) =
    let mine = if negative then now + seconds * second else now in
    let theirs = if negative then unix_epoch * second else (unix_epoch + seconds) * second in
    ltb (window + theirs) mine || ltb (window + mine) theirs

-- `time.Unix` of a text that is no number is not reached.
abbrev stale_stamp : Time → Duration → Option (Bool × ℕ) → Bool
stale_stamp now window none = true
stale_stamp now window (some seconds) = is_stale now window seconds

-- `VerifySignature`
unfoldable pub verify_signature :
    (String → String → String) → String → String → String → String → Time → Duration → Status
unfolding parse_int is_stale trim_space
verify_signature mac signing_secret timestamp signature body now window = do
  fail_if
      (trim_space signing_secret == ""
        || trim_space timestamp == ""
        || trim_space signature == ""
        || window == 0)
      (failure "invalid Slack signature settings")
  fail_if (stale_stamp now window (parse_int timestamp)) (failure "stale Slack request")
  fail_if (not ("v0=" <> mac signing_secret ("v0:" <> timestamp <> ":" <> body) == signature))
      (failure "invalid Slack signature")

-- ===== src/Chat/Slack/Signature/Replay.antt =====
-- What the check of internal/chat/slack/signature.go lets pass.
use Prim.Native.String.{◌++◌ as ◌<>◌}
use crypto_price_alert.Base.{
  ℕ, ◌+◌, ◌*◌, ◌<◌, String, Bool, true, false, ◌≡◌, nat_eq, string_eq, Option-cases, inl, inr, ok,
  ok?, arith, some,
}
use crypto_price_alert.Base.Text.Integers.{parse_int}
use crypto_price_alert.Domain.Interval.{Time, Duration}
use crypto_price_alert.Chat.Slack.Signature.{is_stale, verify_signature}

is_stale-later :
    (now later : Time) (window : Duration) (seconds : Bool × ℕ)
    → is_stale now window seconds ≡ false
    → 2 * window + now < later
    → is_stale later window seconds ≡ true
unfolding is_stale
is_stale-later now later window (true, n) fresh h = ground arith
is_stale-later now later window (false, n) fresh h = ground arith

module _ (mac : String → String → String) (secret timestamp signature body : String) (now : Time)
    (window : Duration) where
  -- What a request that is let pass has.
  pub record Verified : Type 0 where
    pub signed : signature ≡ "v0=" <> mac secret ("v0:" <> timestamp <> ":" <> body)
    pub seconds : Bool × ℕ
    pub stamped : parse_int timestamp ≡ some seconds
    pub fresh : is_stale now window seconds ≡ false

  pub verify_signature-Verified :
      verify_signature mac secret timestamp signature body now window ≡ ok tt → Verified
  unfolding verify_signature
  verify_signature-Verified h = elim (Option-cases (parse_int timestamp)) [
    | inl bad ↦ absurd (ground arith)
    | inr (seconds, good) ↦ record {
      signed = ground arith;
      seconds = seconds;
      stamped = good;
      fresh = ground arith;
    }
  ]

  -- A request that is let pass carries the MAC of its own time stamp and body; and at a time more
  -- than two windows later, no request with its time stamp is let pass, whatever its signature and
  -- body are.
  pub verify_signature-replayed :
      (other other_body : String) (later : Time)
      → verify_signature mac secret timestamp signature body now window ≡ ok tt
      → 2 * window + now < later
      → (signature ≡ "v0=" <> mac secret ("v0:" <> timestamp <> ":" <> body))
        × (ok? (verify_signature mac secret timestamp other other_body later window) ≡ false)
  unfolding verify_signature
  verify_signature-replayed other other_body later passed h =
      let v = verify_signature-Verified passed in
      (v.signed, ground (arith, v.stamped, is_stale-later now later window v.seconds v.fresh h))

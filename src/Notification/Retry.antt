-- ===== src/Notification/Retry.antt =====
-- internal/notification/retry.go: one request, sent again with growing pauses. The HTTP client and the
-- timer are parameters, which change the world `W`.
pub mod Attempts
use crypto_price_alert.Base.{
  wrap64, ℕ, zero, suc, ◌*◌, ◌+◌, ◌^◌, String, ◌==◌, nat_eq, not, ◌&&◌, Option, none, some, [], ◌∷◌,
  Error, errorf, Result, ok, err, Status, ltb, leb, if◌then◌else◌,
}
use crypto_price_alert.Base.Text.{decimal}
use crypto_price_alert.Domain.Interval.{Duration}

-- A response: its status and its body, or the error of reading the body.
pub record Response : Type 0 where
  pub status_code : ℕ
  pub body : Result String

-- `request` is `NewRequestWithContext`, `do` sends the request, and `wait` is the pause, which the end
-- of the context cuts short with an error.
pub record Transport (W : Type 0) : Type 0 where
  pub request : Status
  pub send : W → Result Response × W
  pub wait : Duration → W → Status × W

-- What one attempt means: success, an error after which nothing is sent again, or an error after which
-- another attempt may follow.
pub data Verdict : Type 0 where
  delivered : Verdict
  refused : Error → Verdict
  retry : Error → Verdict

unfoldable pub judge : Result Response → Verdict
judge (err e) = Verdict.retry e
judge (ok response) = elim response.body [
  | err e ↦ Verdict.retry e
  | ok body ↦
      if leb 200 response.status_code && ltb response.status_code 300
      then Verdict.delivered
      else (let failed =
            errorf "notification HTTP status %d: %s" (decimal response.status_code ∷ body ∷ []) in
          if ltb response.status_code 500 && not (response.status_code == 429)
          then Verdict.refused failed
          else Verdict.retry failed)
]

-- The status of the last error, which is nil before the first attempt.
abbrev last_status : Option Error → Status
last_status none = ok tt
last_status (some e) = err e

module _ {W : Type 0} (transport : Transport W) (backoff : Duration) where
  -- The loop, with `left` attempts to come; `attempt` counts those before.
  unfoldable pub attempts : ℕ → ℕ → Option Error → W → Status × W
  unfolding judge
  attempts zero attempt last w = (last_status last, w)
  attempts (suc left) attempt last w =
      let (r, w1) = transport.send w in
      let (paused, w2) = transport.wait (wrap64 (backoff * 2 ^ attempt)) w1 in
      elim transport.request [
        | err e ↦ (err e, w)
        | ok made ↦ elim (judge r) [
          | Verdict.delivered ↦ (ok tt, w1)
          | Verdict.refused e ↦ (err e, w1)
          | Verdict.retry e ↦ elim left [
            | zero ↦ (err e, w1)
            | suc more ↦ elim paused [
              | err cut ↦ (err cut, w2)
              | ok over ↦ attempts left (suc attempt) (some e) w2
            ]
          ]
        ]
      ]

  -- `sendWithRetry`
  unfoldable pub send_with_retry : ℕ → W → Status × W
  unfolding attempts
  send_with_retry max_attempts w = attempts max_attempts 0 none w

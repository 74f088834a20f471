-- ===== src/Notification/Retry/Attempts.antt =====
-- How often `sendWithRetry` of internal/notification/retry.go sends, and what its success means.
use mathlib.Core.Path.{subst}
use crypto_price_alert.Base.{
  wrap64, ℕ, zero, suc, String, ◌<◌, ◌+◌, ◌*◌, ◌^◌, ◌≤◌, ◌≡◌, refl, Option, none, some, Error, ok,
  arith, Result-cases, inl, inr, ◌⊎◌, Status, sym, ap, ◌∙◌,
}
use crypto_price_alert.Domain.Interval.{Duration}
use crypto_price_alert.Notification.Retry.{
  Transport, Response, Verdict, judge, attempts, send_with_retry,
}

-- What the theorem on the number of requests relies on: `sends` counts the requests.
pub record Counted {W : Type 0} (transport : Transport W) (sends : W → ℕ) : Type 0 where
  pub after_send : (w : W) → sends (transport.send w).1 ≡ sends w + 1
  pub after_wait : (d : Duration) (w : W) → sends (transport.wait d w).1 ≡ sends w

Verdict-cases :
    (v : Verdict)
    → (v ≡ Verdict.delivered)
      ⊎ (((e : Error) × (v ≡ Verdict.refused e)) ⊎ ((e : Error) × (v ≡ Verdict.retry e)))
Verdict-cases Verdict.delivered = inl refl
Verdict-cases (Verdict.refused e) = inr (inl (e, refl))
Verdict-cases (Verdict.retry e) = inr (inr (e, refl))

module _ {W : Type 0} (transport : Transport W) (backoff : Duration) where
  module _ (sends : W → ℕ) (counted : Counted transport sends) where
    -- The last error of a request is returned, or the request is sent again after a pause.
    attempts-bounded :
        (left attempt : ℕ) (last : Option Error) (w : W)
        → sends (attempts transport backoff left attempt last w).1 ≤ sends w + left
    unfolding attempts
    attempts-bounded zero attempt last w = omega arith
    attempts-bounded (suc zero) attempt last w =
        let c1 = counted.after_send w in
        elim (Result-cases transport.request) [
          | inr (e, q) ↦ rw (q, attempts) (omega arith)
          | inl (made, q) ↦ elim (Verdict-cases (judge (transport.send w).0)) [
            | inl v ↦ rw (q, v, attempts) (omega arith)
            | inr (inl (e, v)) ↦ rw (q, v, attempts) (omega arith)
            | inr (inr (e, v)) ↦ rw (q, v, attempts) (omega arith)
          ]
        ]
    attempts-bounded (suc (suc more)) attempt last w =
        let w1 = (transport.send w).1 in
        let pause = transport.wait (wrap64 (backoff * 2 ^ attempt)) w1 in
        let c1 = counted.after_send w in
        let c2 = counted.after_wait (wrap64 (backoff * 2 ^ attempt)) w1 in
        elim (Result-cases transport.request) [
          | inr (e, q) ↦ rw (q, attempts) (omega arith)
          | inl (made, q) ↦ elim (Verdict-cases (judge (transport.send w).0)) [
            | inl v ↦ rw (q, v, attempts) (omega arith)
            | inr (inl (e, v)) ↦ rw (q, v, attempts) (omega arith)
            | inr (inr (e, v)) ↦ elim (Result-cases pause.0) [
              | inr (cut, t) ↦ rw (q, v, t, attempts) (omega arith)
              | inl (over, t) ↦
                  (let ih = attempts-bounded (suc more) (suc attempt) (some e) pause.1 in
                    rw (q, v, t, attempts) (omega arith))
            ]
          ]
        ]

    -- Over a transport that counts its requests, a message is sent at most as often as the settings
    -- allow.
    pub sends-send_with_retry :
        (max_attempts : ℕ) (w : W)
        → sends (send_with_retry transport backoff max_attempts w).1 ≤ sends w + max_attempts
    unfolding send_with_retry
    sends-send_with_retry max_attempts w = attempts-bounded max_attempts 0 none w

  -- The answer to the request that ended the loop with success.
  pub record Delivered (result : Status × W) : Type 0 where
    pub before : W
    pub response : Response
    pub text : String
    pub answered : (transport.send before).0 ≡ ok response
    pub readable : response.body ≡ ok text
    pub from_200 : 200 ≤ response.status_code
    pub below_300 : response.status_code < 300
    pub after : result.1 ≡ (transport.send before).1

  judge-Delivered :
      (w : W) (result : Status × W)
      → judge (transport.send w).0 ≡ Verdict.delivered
      → result.1 ≡ (transport.send w).1
      → Delivered result
  unfolding judge
  judge-Delivered w result v after = elim (Result-cases (transport.send w).0) [
    | inr (error, s) ↦ absurd (ground arith)
    | inl (response, s) ↦ elim (Result-cases response.body) [
      | inr (error, b) ↦ absurd (ground arith)
      | inl (text, b) ↦ record {
        before = w;
        response = response;
        text = text;
        answered = s;
        readable = b;
        from_200 = ground arith;
        below_300 = ground arith;
        after = after;
      }
    ]
  ]

  attempts-again :
      (more attempt : ℕ) (last : Option Error) (w : W) (made over : Unit {0}) (e : Error)
      → transport.request ≡ ok made
      → judge (transport.send w).0 ≡ Verdict.retry e
      → (transport.wait (wrap64 (backoff * 2 ^ attempt)) (transport.send w).1).0 ≡ ok over
      → attempts transport backoff (suc (suc more)) attempt last w
        ≡ attempts transport backoff
            (suc more)
            (suc attempt)
            (some e)
            (transport.wait (wrap64 (backoff * 2 ^ attempt)) (transport.send w).1).1
  unfolding attempts
  attempts-again more attempt last w made over e q v t = ground arith

  attempts-Delivered :
      (left attempt : ℕ) (last : Option Error) (w : W)
      → (attempts transport backoff (suc left) attempt last w).0 ≡ ok tt
      → Delivered (attempts transport backoff (suc left) attempt last w)
  unfolding attempts
  attempts-Delivered zero attempt last w h = elim (Result-cases transport.request) [
    | inr (e, q) ↦ absurd (ground arith)
    | inl (made, q) ↦ elim (Verdict-cases (judge (transport.send w).0)) [
      | inl v ↦ judge-Delivered w _ v (rw (q, v, attempts) refl)
      | inr (inl (e, v)) ↦ absurd (ground arith)
      | inr (inr (e, v)) ↦ absurd (ground arith)
    ]
  ]
  attempts-Delivered (suc more) attempt last w h =
      let w1 = (transport.send w).1 in
      let pause = transport.wait (wrap64 (backoff * 2 ^ attempt)) w1 in
      elim (Result-cases transport.request) [
        | inr (e, q) ↦ absurd (ground arith)
        | inl (made, q) ↦ elim (Verdict-cases (judge (transport.send w).0)) [
          | inl v ↦ judge-Delivered w _ v (rw (q, v, attempts) refl)
          | inr (inl (e, v)) ↦ absurd (ground arith)
          | inr (inr (e, v)) ↦ elim (Result-cases pause.0) [
            | inr (cut, t) ↦ absurd (ground arith)
            | inl (over, t) ↦
                (let again = attempts-again more attempt last w made over e q v t in
                  subst (λ r. Delivered r) (sym again)
                    (attempts-Delivered more (suc attempt) (some e) pause.1
                      (sym (ap (λ r. r.0) again) ∙ h)))
          ]
        ]
      ]

  -- With at least one attempt, the success of the retried send means that some request was answered
  -- by a status of at least 200 and below 300, with a body that could be read, and that nothing was
  -- sent after it.
  pub send_with_retry-Delivered :
      (more : ℕ) (w : W)
      → (send_with_retry transport backoff (suc more) w).0 ≡ ok tt
      → Delivered (send_with_retry transport backoff (suc more) w)
  unfolding send_with_retry
  send_with_retry-Delivered more w h = attempts-Delivered more 0 none w h

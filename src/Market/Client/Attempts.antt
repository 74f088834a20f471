-- ===== src/Market/Client/Attempts.antt =====
-- What the loop of the market clients gives.
use crypto_price_alert.Base.{
  wrap64, String, ℕ, zero, suc, ◌≡◌, refl, Option, some, Error, Result, ok, err, arith,
  Result-cases, inl, inr, ◌⊎◌, ◌≢◌, ◌*◌, ◌^◌,
}
use crypto_price_alert.Notification.Retry.{Response}
use crypto_price_alert.Domain.Interval.{Duration}
use crypto_price_alert.Domain.Candle.{Floats, Candle}
use crypto_price_alert.Market.Client.{HttpClient, Attempt, attempts, judge}

Attempt-cases :
    {F : Type 0} (v : Attempt F)
    → ((c : Candle F) × (v ≡ Attempt.fetched c))
      ⊎ (((e : Error) × (v ≡ Attempt.refused e)) ⊎ ((e : Error) × (v ≡ Attempt.retry e)))
Attempt-cases (Attempt.fetched c) = inl (c, refl)
Attempt-cases (Attempt.refused e) = inr (inl (e, refl))
Attempt-cases (Attempt.retry e) = inr (inr (e, refl))

module _ {F W : Type 0} (fl : Floats F) (client : HttpClient W) (backoff : Duration)
    (request : W → Attempt F × W) where
  -- The request whose answer is the candle of the loop.
  pub record Fetched (candle : Candle F) : Type 0 where
    pub before : W
    pub answered : (request before).0 ≡ Attempt.fetched candle

  -- After at least one attempt, a candle is the answer of a request.
  pub attempts-Fetched :
      (left attempt : ℕ) (last : Option Error) (candle : Candle F) (w : W)
      → left ≢ 0
      → (attempts fl client backoff request left attempt last w).0 ≡ ok candle
      → Fetched candle
  unfolding attempts
  attempts-Fetched zero attempt last candle w n h = absurd (n refl)
  attempts-Fetched (suc zero) attempt last candle w n h = elim (Attempt-cases (request w).0) [
    | inl (c, v) ↦ record { before = w; answered = ground arith }
    | inr (inl (x, v)) ↦ absurd (ground arith)
    | inr (inr (x, v)) ↦ absurd (ground arith)
  ]
  attempts-Fetched (suc (suc more)) attempt last candle w n h =
      let pause = client.wait (wrap64 (backoff * 2 ^ attempt)) (request w).1 in
      elim (Attempt-cases (request w).0) [
        | inl (c, v) ↦ record { before = w; answered = ground arith }
        | inr (inl (x, v)) ↦ absurd (ground arith)
        | inr (inr (x, v)) ↦ elim (Result-cases pause.0) [
          | inr (cut, t) ↦ absurd (ground arith)
          | inl (over, t) ↦
              attempts-Fetched (suc more) (suc attempt) (some x) candle pause.1 (ground arith)
                (rw (v, t, attempts) at h)
        ]
      ]

-- A judged answer is a candle when its body was read as one.
pub judge-fetched :
    {F : Type 0} (failed : Response → Option String → Error) (read : String → Result (Candle F))
    (answer : Result Response) (candle : Candle F)
    → judge failed read answer ≡ Attempt.fetched candle
    → (body : String) × (read body ≡ ok candle)
unfolding judge
judge-fetched failed read (err e) candle h = absurd (ground arith)
judge-fetched failed read (ok response) candle h = elim (Result-cases response.body) [
  | inr (error, b) ↦ absurd (ground arith)
  | inl (body, b) ↦ elim (Result-cases (read body)) [
    | inr (error, q) ↦ absurd (ground arith)
    | inl (found, q) ↦ (body, ground arith)
  ]
]

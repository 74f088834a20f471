-- ===== src/Domain/Candle.antt =====
-- `Candle` and `PriceChange` of internal/domain/types.go. The type of a `float64` is a parameter, and
-- so are its operations: `Floats` lists those that the program uses.
use crypto_price_alert.Base.{
  ℕ, String, Bool, ◌==◌, nat_eq, string_eq, not, ◌||◌, failure, Status, fail_if, ltb,
}
use crypto_price_alert.Domain.Interval.{Interval, Time}

-- The comparisons and the arithmetic of `float64`, and the verbs of `fmt` that print one: `fixed k x`
-- is `%.kf`, `signed x` is `%+.2f`.
pub record Floats (F : Type 0) : Type 0 where
  pub zero_f : F
  pub one_f : F
  pub hundred : F
  pub thousand : F
  pub lt : F → F → Bool
  pub le : F → F → Bool
  pub sub : F → F → F
  pub mul : F → F → F
  pub div : F → F → F
  pub fixed : ℕ → F → String
  pub signed : F → String

pub record Candle (F : Type 0) : Type 0 where
  pub symbol : String
  pub open_price : F
  pub high : F
  pub low : F
  pub close : F
  pub volume : F
  pub open_time : Time
  pub close_time : Time

unfoldable pub validate : {F : Type 0} → Floats F → Candle F → Status
validate fl c =
    fail_if
      (c.symbol == ""
        || fl.le c.open_price fl.zero_f
        || fl.le c.high fl.zero_f
        || fl.le c.low fl.zero_f
        || fl.le c.close fl.zero_f
        || fl.lt c.volume fl.zero_f
        || c.open_time == 0
        || c.close_time == 0
        || not (ltb c.open_time c.close_time)
        || fl.lt c.high c.open_price
        || fl.lt c.high c.close
        || fl.lt c.open_price c.low
        || fl.lt c.close c.low
        || fl.lt c.high c.low)
      (failure "invalid candle")

pub record PriceChange (F : Type 0) : Type 0 where
  pub symbol : String
  pub interval : Interval
  pub open_price : F
  pub close : F
  pub change_pct : F
  pub volume : F
  pub start_time : Time
  pub end_time : Time

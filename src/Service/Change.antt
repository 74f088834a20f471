-- ===== src/Service/Change.antt =====
-- `CalculateChange` of internal/service/alert.go
use crypto_price_alert.Base.{◌+◌, ◌||◌, failure, Result, ok, fail_if, ◌>>◌, ltb}
use crypto_price_alert.Domain.Interval.{Interval, second}
use crypto_price_alert.Domain.Period.{Period}
use crypto_price_alert.Domain.Candle
use crypto_price_alert.Domain.Candle.{Floats, Candle, PriceChange}

unfoldable pub calculate_change :
    {F : Type 0} → Floats F → Candle F → Interval → Period → Result (PriceChange F)
unfolding Candle.validate
calculate_change fl candle interval period = do
  Candle.validate fl candle
  fail_if (ltb candle.open_time period.start || ltb (period.end + second) candle.close_time)
      (failure "candle does not match period")
  ok (record {
    symbol = candle.symbol;
    interval = interval;
    open_price = candle.open_price;
    close = candle.close;
    change_pct =
        fl.mul (fl.div (fl.sub candle.close candle.open_price) candle.open_price) fl.hundred;
    volume = candle.volume;
    start_time = period.start;
    end_time = period.end;
  })

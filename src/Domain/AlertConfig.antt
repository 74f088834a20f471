-- ===== src/Domain/AlertConfig.antt =====
-- `AlertConfig` of internal/domain/types.go
use crypto_price_alert.Base.{
  ℕ, String, Bool, ◌==◌, contains, string_eq, ◌||◌, List, [], ◌∷◌, ok, failure, errorf, Status,
  fail_if, ◌>>◌, empty?, negative64,
}
use crypto_price_alert.Domain.Interval
use crypto_price_alert.Domain.Interval.{Interval, Time}
use crypto_price_alert.Domain.Provider
use crypto_price_alert.Domain.Provider.{MarketProvider}

-- `version` is the bit pattern of an `int64`.
pub record AlertConfig : Type 0 where
  pub target_id : String
  pub market_provider : MarketProvider
  pub enabled : Bool
  pub symbols : List String
  pub intervals : List Interval
  pub version : ℕ
  pub updated_by : String
  pub updated_at : Time

-- The two loops of `Validate`; `seen` is the map of what came before.
unfoldable pub check_symbols : List String → List String → Status
check_symbols seen [] = ok tt
check_symbols seen (symbol ∷ rest) = do
  fail_if (symbol == "") (failure "alert config contains an empty symbol")
  fail_if (contains seen symbol) (errorf "duplicate alert symbol %q" (symbol ∷ []))
  check_symbols (symbol ∷ seen) rest

unfoldable pub check_intervals : List Interval → List Interval → Status
check_intervals seen [] = ok tt
check_intervals seen (interval ∷ rest) = do
  Interval.validate interval
  fail_if (contains seen interval) (errorf "duplicate alert interval %q" (interval ∷ []))
  check_intervals (interval ∷ seen) rest

unfoldable pub validate : AlertConfig → Status
unfolding check_symbols check_intervals
validate c = do
  fail_if
      (c.target_id == "" || c.market_provider == "" || negative64 c.version || c.updated_by == "")
      (failure "invalid alert config")
  Provider.validate c.market_provider
  fail_if (empty? c.symbols || empty? c.intervals)
      (failure "alert config requires symbols and intervals")
  check_symbols [] c.symbols
  check_intervals [] c.intervals

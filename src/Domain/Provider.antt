-- ===== src/Domain/Provider.antt =====
-- `MarketProvider` and `ChatProvider` of internal/domain/types.go
use crypto_price_alert.Base.{
  String, ◌==◌, string_eq, if◌then◌else◌, not, ◌&&◌, [], ◌∷◌, errorf, ok, err, Status,
}

abbrev pub MarketProvider : Type 0
MarketProvider = String

abbrev pub binance : MarketProvider
binance = "binance"

abbrev pub coin_market_cap : MarketProvider
coin_market_cap = "coinmarketcap"

unfoldable pub validate : MarketProvider → Status
validate p =
    if not (p == binance) && not (p == coin_market_cap)
    then err (errorf "unsupported market provider %q" (p ∷ []))
    else ok tt

abbrev pub ChatProvider : Type 0
ChatProvider = String

abbrev pub telegram : ChatProvider
telegram = "telegram"

abbrev pub slack : ChatProvider
slack = "slack"

abbrev pub legacy : ChatProvider
legacy = "legacy"

unfoldable pub validate_chat : ChatProvider → Status
validate_chat p =
    if not (p == telegram) && not (p == slack) && not (p == legacy)
    then err (errorf "unsupported chat provider %q" (p ∷ []))
    else ok tt

-- ===== src/Market.antt =====
-- internal/market: the providers of candles and the registry that resolves them.
pub mod Provider
pub mod Client
pub mod CoinMarketCap
pub mod Binance
pub mod Registry

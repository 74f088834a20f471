-- ===== src/Market/Registry/Candles.antt =====
-- What the providers of a registry of internal/market/registry.go give.
use mathlib.Core.Path.{subst}
use crypto_price_alert.Base.{
  ℕ, ◌≡◌, ◌≢◌, refl, String, ◌==◌, nat_eq, string_eq, some, List, [], ◌∷◌, ok, arith, Result-cases,
  inl, inr, Bool-cases, map, ok_injective, err≢ok, ◌∙◌, sym, some_injective, Option-cases, ap,
}
use crypto_price_alert.Base.Dict.{Dict, lookup, lookup-insert}
use crypto_price_alert.Domain.Interval.{Interval, Time}
use crypto_price_alert.Domain.Provider.{MarketProvider, binance, coin_market_cap}
use crypto_price_alert.Domain.Candle.{Floats, Candle}
use crypto_price_alert.Market.Provider.{MarketDataProvider}
use crypto_price_alert.Market.Binance.{BinanceProvider, new_binance_provider}
use crypto_price_alert.Market.Binance.Candles.{IsOf, get_kline-IsOf}
use crypto_price_alert.Market.CoinMarketCap.{CoinMarketCapProvider, new_coin_market_cap_provider}
use crypto_price_alert.Market.CoinMarketCap.Candles.{IsExact, get_kline-IsExact}
use crypto_price_alert.Config.Settings.{ProviderConfig, MarketConfig}
use crypto_price_alert.Market.Registry.{
  Constructors, ProviderRegistry, construct, register_all, with_provider, new_provider_registry,
  get,
}
use crypto_price_alert.Market.Registry.Clients.{
  ClientSettings, constructors, binance_settings, coin_market_cap_settings, binance_kline,
  coin_market_cap_kline,
}

-- A provider whose candles are valid and of the symbol that was asked for.
abbrev pub Reliable : {F W : Type 0} → Floats F → MarketDataProvider F W → Type 0
Reliable {F = F} {W = W} fl p =
    (symbol : String) (interval : Interval) (start end : Time) (candle : Candle F) (w : W)
    → (p symbol interval start end w).0 ≡ ok candle
    → IsOf fl symbol candle

-- What holds of every provider that the constructors make holds of every provider of the registry.
module _ {F W : Type 0} (new : Constructors F W) (P : MarketDataProvider F W → Type 0)
    (made : (name : MarketProvider) (config : ProviderConfig) (p : MarketDataProvider F W)
      → construct new name config ≡ ok p
      → P p) where
  abbrev AllProviders : ProviderRegistry F W → Type 0
  AllProviders r =
      (name : MarketProvider) (p : MarketDataProvider F W) → lookup name r.providers ≡ some p → P p

  with_provider-AllProviders :
      (intervals : List Interval) (name : MarketProvider) (config : ProviderConfig)
      (p : MarketDataProvider F W) (r : ProviderRegistry F W)
      → P p
      → AllProviders r
      → AllProviders (with_provider new intervals name config p r)
  with_provider-AllProviders intervals name config p r new_holds all other q found =
      let there = lookup-insert name other p r.providers in
      elim (Bool-cases (name == other)) [
        | inl same ↦ subst P (some_injective (sym (rw same at there) ∙ found)) new_holds
        | inr differ ↦ all other q (sym (rw differ at there) ∙ found)
      ]

  register_all-AllProviders :
      (intervals : List Interval) (configs : Dict MarketProvider ProviderConfig)
      (r r' : ProviderRegistry F W)
      → AllProviders r
      → register_all new intervals configs r ≡ ok r'
      → AllProviders r'
  unfolding register_all
  register_all-AllProviders intervals [] r r' all h = subst AllProviders (ok_injective h) all
  register_all-AllProviders intervals ((name, config) ∷ rest) r r' all h =
      elim (Bool-cases config.enabled) [
        | inr off ↦ register_all-AllProviders intervals rest r r' all (ground arith)
        | inl on ↦ elim (Result-cases (construct new name config)) [
          | inr (error, x) ↦ absurd (ground arith)
          | inl (p, x) ↦
              register_all-AllProviders intervals rest (with_provider new intervals name config p r)
                r' (with_provider-AllProviders intervals name config p r (made name config p x) all)
                (ground arith)
        ]
      ]

floats-new_binance :
    {F W : Type 0} (start built : BinanceProvider F W) (n : ℕ)
    → new_binance_provider start n ≡ ok built
    → built.floats ≡ start.floats
unfolding new_binance_provider
floats-new_binance start built n h = ground arith

max_attempts-new_binance :
    {F W : Type 0} (start built : BinanceProvider F W) (n : ℕ)
    → new_binance_provider start n ≡ ok built
    → built.max_attempts ≢ 0
unfolding new_binance_provider
max_attempts-new_binance start built n h = ground arith

floats-new_cap :
    {F W : Type 0} (start built : CoinMarketCapProvider F W) (n : ℕ)
    → new_coin_market_cap_provider start n ≡ ok built
    → built.floats ≡ start.floats
unfolding new_coin_market_cap_provider
floats-new_cap start built n h = ground arith

-- A candle of a period is one of the symbol.
exact→of :
    {F : Type 0} {fl : Floats F} {symbol : String} {start end : Time} {candle : Candle F}
    → IsExact fl symbol start end candle
    → IsOf fl symbol candle
exact→of x = record { of_symbol = x.of_symbol; valid = x.valid }

get-found :
    {F W : Type 0} (r : ProviderRegistry F W) (name : MarketProvider) (p : MarketDataProvider F W)
    → get r name ≡ ok p
    → lookup name r.providers ≡ some p
unfolding get
get-found r name p h = elim (Option-cases (lookup name r.providers)) [
  | inl absent ↦ absurd (err≢ok (rw (get, absent) at h))
  | inr (q, there) ↦ there ∙ ap some (ok_injective (rw (get, there) at h))
]

nothing-found : {V : Type 0} (name : MarketProvider) (v : V) → lookup name [] ≢ some v
unfolding lookup
nothing-found name v h = ground arith

module _ {F W : Type 0} (settings : ClientSettings F W) where
  binance-Reliable :
      (start : BinanceProvider F W) (p : MarketDataProvider F W)
      → start.floats ≡ settings.floats
      → binance_kline (new_binance_provider start settings.concurrency) ≡ ok p
      → Reliable settings.floats p
  binance-Reliable start p same h =
      elim (Result-cases (new_binance_provider start settings.concurrency)) [
        | inr (error, b) ↦ absurd (err≢ok (rw b at h))
        | inl (built, b) ↦
            subst (Reliable settings.floats) (ok_injective (rw b at h))
              (λ symbol interval from to candle w found.
                subst (λ fl. IsOf fl symbol candle) (floats-new_binance start built _ b ∙ same)
                  (get_kline-IsOf built symbol interval from to candle w
                    (max_attempts-new_binance start built _ b) found))
      ]

  coin_market_cap-Reliable :
      (start : CoinMarketCapProvider F W) (p : MarketDataProvider F W)
      → start.floats ≡ settings.floats
      → coin_market_cap_kline (new_coin_market_cap_provider start settings.concurrency) ≡ ok p
      → Reliable settings.floats p
  coin_market_cap-Reliable start p same h =
      elim (Result-cases (new_coin_market_cap_provider start settings.concurrency)) [
        | inr (error, b) ↦ absurd (err≢ok (rw b at h))
        | inl (built, b) ↦
            subst (Reliable settings.floats) (ok_injective (rw b at h))
              (λ symbol interval from to candle w found.
                subst (λ fl. IsOf fl symbol candle) (floats-new_cap start built _ b ∙ same)
                  (exact→of
                    (get_kline-IsExact built symbol interval from to start settings.concurrency
                      candle w b found).0))
      ]

  construct-Reliable :
      (name : MarketProvider) (config : ProviderConfig) (p : MarketDataProvider F W)
      → construct (constructors settings) name config ≡ ok p
      → Reliable settings.floats p
  unfolding construct constructors
  construct-Reliable name config p h = elim (Bool-cases (name == binance)) [
    | inl is_binance ↦
        binance-Reliable
          (binance_settings settings config.base_url (map (λ s. (s.0, s.1.symbol)) config.symbols))
          p refl (rw (construct, constructors, is_binance) at h)
    | inr no_binance ↦ elim (Bool-cases (name == coin_market_cap)) [
      | inl is_cap ↦
          coin_market_cap-Reliable
            (coin_market_cap_settings settings config.base_url config.api_key config.unit
              (map (λ s. (s.0, (s.1.platform, s.1.address))) config.symbols))
            p refl (rw (construct, constructors, no_binance, is_cap) at h)
      | inr no_cap ↦ absurd (err≢ok (rw (construct, no_binance, no_cap) at h))
    ]
  ]

  -- Every candle that a provider gives that a registry resolves is a valid candle of the symbol
  -- that was asked for, if the constructor of the registry returned it.
  pub registry-IsOf :
      (config : MarketConfig) (r : ProviderRegistry F W) (name : MarketProvider)
      (p : MarketDataProvider F W) (symbol : String) (interval : Interval) (start end : Time)
      (candle : Candle F) (w : W)
      → new_provider_registry (constructors settings) config ≡ ok r
      → get r name ≡ ok p
      → (p symbol interval start end w).0 ≡ ok candle
      → IsOf settings.floats symbol candle
  unfolding new_provider_registry
  registry-IsOf config r name p symbol interval start end candle w made found h =
      let empty : ProviderRegistry F W = record {
        providers = [];
        capabilities = [];
        canonical_symbols = [];
        default_provider = config.default_provider;
      } in
      let new = constructors settings in
      elim (Result-cases (register_all new config.intervals config.providers empty)) [
        | inr (error, x) ↦ absurd (ground arith)
        | inl (built, x) ↦
            let same : built ≡ r = ground arith in
            register_all-AllProviders new (Reliable settings.floats) construct-Reliable
              config.intervals config.providers empty r
              (λ other q absent. absurd (nothing-found other q absent)) (x ∙ ap ok same) name p
              (get-found r name p found) symbol interval start end candle w h
      ]

-- ===== src/Market/Registry/Membership.antt =====
-- Which providers a registry of internal/market/registry.go knows.
use mathlib.Core.Path.{subst}
use crypto_price_alert.Base.{
  ◌≡◌, refl, String, true, string_eq, List, [], ◌∷◌, ok, ok?, arith, Result-cases, inl, inr,
  Bool-cases, map,
}
use crypto_price_alert.Base.Dict.{Dict, lookup, has, lookup-insert}
use crypto_price_alert.Domain.Interval.{Interval}
use crypto_price_alert.Domain.Provider
use crypto_price_alert.Domain.Provider.{MarketProvider}
use crypto_price_alert.Market.Provider.{MarketDataProvider}
use crypto_price_alert.Config.Settings.{ProviderConfig, MarketConfig}
use crypto_price_alert.Market.Registry.{
  Constructors, ProviderRegistry, construct, register_all, with_provider, new_provider_registry,
  get, supports,
}

module _ {F W : Type 0} (new : Constructors F W) where
  construct-valid :
      (name : MarketProvider) (config : ProviderConfig) (p : MarketDataProvider F W)
      → construct new name config ≡ ok p
      → Provider.validate name ≡ ok tt
  unfolding construct Provider.validate
  construct-valid name config p h = ground arith

  -- A registry whose providers are market providers, each with its capabilities.
  pub record IsConsistent (r : ProviderRegistry F W) : Type 0 where
    pub known : (p : MarketProvider) → has p r.providers ≡ true → Provider.validate p ≡ ok tt
    pub described : (p : MarketProvider) → has p r.capabilities ≡ has p r.providers

  with_provider-IsConsistent :
      (intervals : List Interval) (name : MarketProvider) (config : ProviderConfig)
      (p : MarketDataProvider F W) (r : ProviderRegistry F W)
      → construct new name config ≡ ok p
      → IsConsistent r
      → IsConsistent (with_provider new intervals name config p r)
  with_provider-IsConsistent intervals name config p r h c = record {
    known = λ q m.
        ground
          (arith, construct-valid name config p h, c.known q, lookup-insert name q p r.providers);
    described = λ q. ground (
      arith,
      c.described q,
      lookup-insert name q p r.providers,
      lookup-insert name q
          (record { symbols = map (λ s. s.0) config.symbols; intervals = intervals })
          r.capabilities,
    );
  }

  register_all-IsConsistent :
      (intervals : List Interval) (configs : Dict MarketProvider ProviderConfig)
      (r r' : ProviderRegistry F W)
      → IsConsistent r
      → register_all new intervals configs r ≡ ok r'
      → IsConsistent r'
  unfolding register_all
  register_all-IsConsistent intervals [] r r' c h =
      let same : r ≡ r' = ground arith in subst IsConsistent same c
  register_all-IsConsistent intervals ((name, config) ∷ rest) r r' c h =
      elim (Bool-cases config.enabled) [
        | inr off ↦ register_all-IsConsistent intervals rest r r' c (ground arith)
        | inl on ↦ elim (Result-cases (construct new name config)) [
          | inr (error, x) ↦ absurd (ground arith)
          | inl (p, x) ↦
              register_all-IsConsistent intervals rest (with_provider new intervals name config p r)
                r' (with_provider-IsConsistent intervals name config p r x c) (ground arith)
        ]
      ]

  new_provider_registry-IsConsistent :
      (config : MarketConfig) (r : ProviderRegistry F W)
      → new_provider_registry new config ≡ ok r
      → IsConsistent r × (ok? (get r r.default_provider) ≡ true)
  unfolding new_provider_registry get lookup
  new_provider_registry-IsConsistent config r h =
      let start : ProviderRegistry F W = record {
        providers = [];
        capabilities = [];
        canonical_symbols = [];
        default_provider = config.default_provider;
      } in
      let empty : IsConsistent start = record {
        known = λ p m. absurd (ground arith);
        described = λ p. refl;
      } in
      elim (Result-cases (register_all new config.intervals config.providers start)) [
        | inr (error, x) ↦ absurd (ground arith)
        | inl (built, x) ↦
            let same : built ≡ r = ground arith in
            (
              subst IsConsistent same
                  (register_all-IsConsistent config.intervals config.providers start built empty x),
              ground arith,
            )
      ]

  module _ (config : MarketConfig) (r : ProviderRegistry F W)
      (made : new_provider_registry new config ≡ ok r) where
    -- What a registry resolves that its constructor returned is a market provider, and the default
    -- provider is among what it resolves.
    pub get-valid :
        (p : MarketProvider)
        → ok? (get r p) ≡ true
        → (Provider.validate p ≡ ok tt) × (ok? (get r r.default_provider) ≡ true)
    unfolding get
    get-valid p h =
        let (c, default) = new_provider_registry-IsConsistent config r made in
        (ground (arith, c.known p), default)

    -- A registry that its constructor returned supports no symbol and no interval of a provider
    -- that it does not resolve.
    get-supports :
        (p : MarketProvider) (symbol : String) (interval : Interval)
        → supports r p symbol interval ≡ true
        → ok? (get r p) ≡ true
    unfolding get supports
    get-supports p symbol interval h =
        let (c, default) = new_provider_registry-IsConsistent config r made in
        ground (arith, c.described p)

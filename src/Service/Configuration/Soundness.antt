-- ===== src/Service/Configuration/Soundness.antt =====
-- `NewService` of internal/service/configuration/service.go builds services that Validity speaks of.
use crypto_price_alert.Base.{
  ℕ, ◌≡◌, refl, String, true, false, contains, string_eq, List, [], ◌∷◌, ok, ok?, arith, All,
  Result-cases, inl, inr,
}
use crypto_price_alert.Domain.Interval
use crypto_price_alert.Domain.Interval.{Interval}
use crypto_price_alert.Domain.Provider
use crypto_price_alert.Domain.Provider.{MarketProvider}
use crypto_price_alert.Market.Provider.{ProviderResolver}
use crypto_price_alert.Config.Settings.{MarketConfig}
use crypto_price_alert.Market.Registry.{
  Constructors, ProviderRegistry, new_provider_registry, registry_resolver,
}
use crypto_price_alert.Market.Registry.Membership.{get-valid}
use crypto_price_alert.Repository.Ports.{AlertTargetRepository, AlertConfigRepository}
use crypto_price_alert.Service.Configuration.{Configuration, symbol_set, interval_set, new_service}
use crypto_price_alert.Service.Configuration.Validity.{IsSound}

symbol_set-nonempty :
    (symbols set : List String) → symbol_set symbols ≡ ok set → contains set "" ≡ false
unfolding symbol_set
symbol_set-nonempty [] set h = let none_left : set ≡ [] = ground arith in rw none_left refl
symbol_set-nonempty (x ∷ xs) set h = elim (Result-cases (symbol_set xs)) [
  | inr (error, e) ↦ absurd (ground arith)
  | inl (rest, e) ↦ ground (arith, symbol_set-nonempty xs rest e)
]

interval_set-valid :
    (intervals set : List Interval)
    → interval_set intervals ≡ ok set
    → All (λ i. Interval.validate i ≡ ok tt) set
unfolding interval_set
interval_set-valid [] set h = let none_left : set ≡ [] = ground arith in rw none_left tt
interval_set-valid (x ∷ xs) set h = elim (Result-cases (Interval.validate x)) [
  | inr (error, v) ↦ absurd (ground arith)
  | inl (valid, v) ↦ elim (Result-cases (interval_set xs)) [
    | inr (error, e) ↦ absurd (ground arith)
    | inl (rest, e) ↦
        let whole : set ≡ x ∷ rest = ground arith in rw whole (v, interval_set-valid xs rest e)
  ]
]

module _ {F W : Type 0} (targets : AlertTargetRepository W) (configs : AlertConfigRepository W)
    (symbols : List String) (intervals : List Interval) (max_symbols max_targets : ℕ)
    (providers : ProviderResolver F W) (default : MarketProvider) (s : Configuration F W) where
  -- Every service that its constructor returns is sound, over a resolver that knows market
  -- providers only: no allowed symbol is empty, every allowed interval is supported, and the
  -- default provider is a market provider.
  pub new_service-IsSound :
      new_service targets configs symbols intervals max_symbols max_targets providers default ≡ ok s
      → ((p : MarketProvider) → ok? (providers.get p) ≡ true → Provider.validate p ≡ ok tt)
      → IsSound s
  unfolding new_service
  new_service-IsSound h known = elim (Result-cases (providers.get default)) [
    | inr (error, d) ↦ absurd (ground arith)
    | inl (provider, d) ↦ elim (Result-cases (symbol_set symbols)) [
      | inr (error, x) ↦ absurd (ground arith)
      | inl (names, x) ↦ elim (Result-cases (interval_set intervals)) [
        | inr (error, y) ↦ absurd (ground arith)
        | inl (spans, y) ↦
            let built : s ≡ record {
              targets = targets;
              configs = configs;
              default_symbols = symbols;
              default_intervals = intervals;
              allowed_symbols = names;
              allowed_intervals = spans;
              max_symbols = max_symbols;
              max_targets = max_targets;
              providers = providers;
              default_provider = default;
            } =
              ground arith in
            rw built (record {
              no_empty_symbol = symbol_set-nonempty symbols names x;
              intervals_valid = interval_set-valid intervals spans y;
              default_valid = known default (rw d refl);
              known_valid = known;
            })
      ]
    ]
  ]

-- A configuration service over a registry of market providers is sound, whatever the settings are,
-- as long as both constructors succeed.
pub new_service_registry-IsSound :
    {F W : Type 0} (new : Constructors F W) (market : MarketConfig) (r : ProviderRegistry F W)
    (targets : AlertTargetRepository W) (configs : AlertConfigRepository W) (symbols : List String)
    (intervals : List Interval) (max_symbols max_targets : ℕ) (default : MarketProvider)
    (s : Configuration F W)
    → new_provider_registry new market ≡ ok r
    → new_service targets configs symbols intervals max_symbols max_targets
        (registry_resolver r)
        default
      ≡ ok s
    → IsSound s
unfolding registry_resolver
new_service_registry-IsSound new market r targets configs symbols intervals max_symbols max_targets
      default s made started =
    new_service-IsSound targets configs symbols intervals max_symbols max_targets
      (registry_resolver r) default s started (λ p h. (get-valid new market r made p h).0)

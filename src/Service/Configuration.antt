-- ===== src/Service/Configuration.antt =====
-- internal/service/configuration: what an alert configuration may hold, and its changes.
pub mod Validator
pub mod Acceptance
pub mod Validity
pub mod Soundness
use crypto_price_alert.Base.{
  ℕ, String, Bool, false, ◌==◌, string_eq, not, ◌||◌, Option, none, some, List, [], ◌∷◌, failure,
  errorf, wrapped, Result, ok, err, Status, is_config_not_found, ltb, empty?, if◌then◌else◌,
}
use crypto_price_alert.Base.Text.{trim_space}
use crypto_price_alert.Base.Action.{Action, raise, lift, ◌>>=◌, ◌>>◌}
use crypto_price_alert.Domain.Interval
use crypto_price_alert.Domain.Interval.{Interval}
use crypto_price_alert.Domain.Provider.{MarketProvider}
use crypto_price_alert.Domain.AlertConfig.{AlertConfig}
use crypto_price_alert.Market.Provider.{ProviderResolver}
use crypto_price_alert.Repository.Ports.{AlertTargetRepository, AlertConfigRepository}
use crypto_price_alert.Service.Configuration.Validator.{
  normalize_symbol, validate_symbols, validate_intervals,
}

-- The fields of the `Service`; a set of the source is the list of its members.
pub record Configuration (F W : Type 0) : Type 0 where
  pub targets : AlertTargetRepository W
  pub configs : AlertConfigRepository W
  pub default_symbols : List String
  pub default_intervals : List Interval
  pub allowed_symbols : List String
  pub allowed_intervals : List Interval
  pub max_symbols : ℕ
  pub max_targets : ℕ
  pub providers : ProviderResolver F W
  pub default_provider : MarketProvider

-- The two loops of `NewService`, which build the sets.
unfoldable pub symbol_set : List String → Result (List String)
unfolding normalize_symbol
symbol_set [] = ok []
symbol_set (symbol ∷ rest) =
    let others = symbol_set rest in
    if normalize_symbol symbol == ""
    then err (failure "allowed symbols must not be empty")
    else (elim others [ err e ↦ err e | ok set ↦ ok (normalize_symbol symbol ∷ set) ])

unfoldable pub interval_set : List Interval → Result (List Interval)
interval_set [] = ok []
interval_set (interval ∷ rest) =
    let others = interval_set rest in
    elim (Interval.validate interval) [
      | err e ↦ err (wrapped "allowed interval: %w" e)
      | ok valid ↦ elim others [ err e ↦ err e | ok set ↦ ok (interval ∷ set) ]
    ]

module _ {F W : Type 0} where
  -- `NewService`, with its arguments in the fields of `s`; the sets are what it computes.
  unfoldable pub new_service :
      AlertTargetRepository W
      → AlertConfigRepository W
      → List String
      → List Interval
      → ℕ
      → ℕ
      → ProviderResolver F W
      → MarketProvider
      → Result (Configuration F W)
  unfolding symbol_set interval_set
  new_service targets configs symbols intervals max_symbols max_targets providers default =
      if empty? symbols || empty? intervals || ltb max_symbols 1 || ltb max_targets 1
      then err (failure "invalid configuration service settings")
      else (elim (providers.get default) [
        | err e ↦ err (wrapped "default market provider: %w" e)
        | ok provider ↦ elim (symbol_set symbols) [
          | err e ↦ err e
          | ok symbol_names ↦ elim (interval_set intervals) [
            | err e ↦ err e
            | ok interval_names ↦ ok (record {
              targets = targets;
              configs = configs;
              default_symbols = symbols;
              default_intervals = intervals;
              allowed_symbols = symbol_names;
              allowed_intervals = interval_names;
              max_symbols = max_symbols;
              max_targets = max_targets;
              providers = providers;
              default_provider = default;
            })
          ]
        ]
      ])

module _ {F W : Type 0} (s : Configuration F W) where
  unfoldable pub effective_provider : MarketProvider → MarketProvider
  effective_provider provider = elim (s.providers.get provider) [
    | ok known ↦ provider
    | err e ↦ s.default_provider
  ]

  -- The inner and the outer loop of `validateProviderSelection`.
  unfoldable pub check_intervals : MarketProvider → String → List Interval → Status
  check_intervals provider symbol [] = ok tt
  check_intervals provider symbol (interval ∷ rest) =
      let others = check_intervals provider symbol rest in
      if not (s.providers.supports provider symbol interval)
      then err
          (errorf "market provider %q does not support %s/%s" (provider ∷ symbol ∷ interval ∷ []))
      else others

  unfoldable pub check_selection : MarketProvider → List String → List Interval → Status
  unfolding check_intervals
  check_selection provider [] intervals = ok tt
  check_selection provider (symbol ∷ rest) intervals =
      let others = check_selection provider rest intervals in
      elim (check_intervals provider symbol intervals) [ err e ↦ err e | ok fine ↦ others ]

  unfoldable pub validate_provider_selection : MarketProvider → List String → List Interval → Status
  unfolding check_selection
  validate_provider_selection provider symbols intervals = elim (s.providers.get provider) [
    | err e ↦ err e
    | ok known ↦ check_selection provider symbols intervals
  ]

  -- What `ReplaceConfig` and `CreateConfig` build from a request, before they call the repository.
  unfoldable pub checked_config :
      String → MarketProvider → List String → List Interval → Bool → String → ℕ → Result AlertConfig
  unfolding effective_provider validate_provider_selection
  checked_config target_id provider symbols intervals enabled updated_by version =
      let chosen = effective_provider provider in
      elim (validate_symbols s.allowed_symbols s.max_symbols symbols) [
        | err e ↦ err e
        | ok symbol_names ↦ elim (validate_intervals s.allowed_intervals intervals) [
          | err e ↦ err e
          | ok interval_names ↦
              elim (validate_provider_selection chosen symbol_names interval_names) [
                | err e ↦ err e
                | ok fine ↦
                    if trim_space updated_by == ""
                    then err (failure "updated_by is required")
                    else ok (record {
                      target_id = target_id;
                      market_provider = chosen;
                      enabled = enabled;
                      symbols = symbol_names;
                      intervals = interval_names;
                      version = version;
                      updated_by = trim_space updated_by;
                      updated_at = 0;
                    })
              ]
        ]
      ]

  unfoldable pub replace_config :
      String
      → MarketProvider
      → List String
      → List Interval
      → Bool
      → String
      → ℕ
      → Action W AlertConfig
  replace_config target_id provider symbols intervals enabled updated_by expected = do
    config ← lift (checked_config target_id provider symbols intervals enabled updated_by expected)
    s.configs.replace_alert_config config expected

  unfoldable pub create_config :
      String → MarketProvider → List String → List Interval → Bool → String → Action W Unit
  create_config target_id provider symbols intervals enabled updated_by = do
    config ← lift (checked_config target_id provider symbols intervals enabled updated_by 0)
    s.configs.create_alert_config config

  unfoldable pub get_config : String → Action W AlertConfig
  get_config target_id = s.configs.get_alert_config target_id

  -- The loop of `canonicalSymbols` over a `SymbolCanonicalizer`.
  unfoldable pub canonical_all :
      (MarketProvider → String → Option String) → MarketProvider → List String → List String
  canonical_all f provider [] = []
  canonical_all f provider (symbol ∷ rest) =
      (elim (f provider symbol) [ none ↦ symbol | some canonical ↦ canonical ])
      ∷ canonical_all f provider rest

  unfoldable pub canonical_symbols : MarketProvider → List String → List String
  unfolding canonical_all
  canonical_symbols provider symbols = elim s.providers.canonical_symbol [
    | none ↦ symbols
    | some f ↦ canonical_all f provider symbols
  ]

  -- The stored configuration with the provider and the symbols that are in use today.
  unfoldable pub refreshed : AlertConfig → AlertConfig
  unfolding effective_provider canonical_symbols
  refreshed config = record config {
    market_provider = effective_provider config.market_provider;
    symbols = canonical_symbols (effective_provider config.market_provider) config.symbols;
  }

  -- The first allowed symbol and interval; `NewService` makes sure that there are some.
  abbrev create_default : String → String → Action W Unit
  create_default target_id updated_by = elim s.default_symbols [
    | [] ↦ raise (failure "index out of range")
    | symbol ∷ symbols ↦ elim s.default_intervals [
      | [] ↦ raise (failure "index out of range")
      | interval ∷ intervals ↦
          create_config target_id s.default_provider (symbol ∷ []) (interval ∷ []) false updated_by
    ]
  ]

  unfoldable pub get_or_create_config : String → String → Action W AlertConfig
  unfolding get_config refreshed create_config
  get_or_create_config target_id updated_by w =
      let (found, w1) = get_config target_id w in
      elim found [
        | ok config ↦ (ok (refreshed config), w1)
        | err e ↦
            if not (is_config_not_found e)
            then (err e, w1)
            else (let (created, w2) = create_default target_id updated_by w1 in
                elim created [
                  | ok done ↦ get_config target_id w2
                  | err e' ↦
                      let (again, w3) = get_config target_id w2 in
                      elim again [
                        | ok config ↦ (ok (refreshed config), w3)
                        | err e'' ↦ (err e', w3)
                      ]
                ])
      ]

  -- `setEnabled`, which is `Enable` at true and `Pause` at false.
  unfoldable pub set_enabled : String → String → ℕ → Bool → Action W AlertConfig
  set_enabled target_id updated_by expected enabled =
      if trim_space updated_by == ""
      then raise (failure "updated_by is required")
      else s.configs.set_alert_config_enabled target_id enabled (trim_space updated_by) expected

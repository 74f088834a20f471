-- ===== src/Market/Registry.antt =====
-- internal/market/registry.go: the enabled providers of the configuration, with the symbols and the
-- intervals that each supports. A map of the source is the list of its entries, in the order in which
-- its iteration meets them. The constructors of the two providers are parameters.
pub mod Membership
pub mod Clients
pub mod Candles
use crypto_price_alert.Base.{
  String, Bool, true, false, ◌==◌, string_eq, not, ◌&&◌, contains, Option, none, some, List, [],
  ◌∷◌, map, errorf, wrapped, Result, ok, err, if◌then◌else◌,
}
use crypto_price_alert.Base.Dict
use crypto_price_alert.Base.Dict.{Dict, has}
use crypto_price_alert.Base.Text.{trim_space, to_upper, string_lt}
use crypto_price_alert.Domain.Interval.{Interval}
use crypto_price_alert.Domain.Provider.{MarketProvider, binance, coin_market_cap}
use crypto_price_alert.Config.Settings.{ProviderSymbolConfig, ProviderConfig, MarketConfig}
use crypto_price_alert.Market.Provider.{MarketDataProvider, ProviderResolver}

-- `NewBinanceProvider` and `NewCoinMarketCapProvider` at the settings of the client: the first gets the
-- symbol of each mapping, the second its platform and address.
pub record Constructors (F W : Type 0) : Type 0 where
  pub new_binance : String → Dict String String → Result (MarketDataProvider F W)
  pub new_coin_market_cap :
      String → String → String → Dict String (String × String) → Result (MarketDataProvider F W)

pub record ProviderCapabilities : Type 0 where
  pub symbols : List String
  pub intervals : List Interval

pub record ProviderRegistry (F W : Type 0) : Type 0 where
  pub providers : Dict MarketProvider (MarketDataProvider F W)
  pub capabilities : Dict MarketProvider ProviderCapabilities
  pub canonical_symbols : Dict MarketProvider (Dict String String)
  pub default_provider : MarketProvider

unfoldable pub normalize_symbol : String → String
normalize_symbol symbol = to_upper (trim_space symbol)

-- The loops over the symbols: the symbols themselves are canonical, and for Binance their mappings
-- too.
unfoldable pub own_symbols :
    Dict String ProviderSymbolConfig → Dict String String → Dict String String
unfolding normalize_symbol
own_symbols [] canonical = canonical
own_symbols ((symbol, mapping) ∷ rest) canonical =
    own_symbols rest (Dict.insert (normalize_symbol symbol) symbol canonical)

unfoldable pub mapped_symbols :
    Dict String ProviderSymbolConfig → Dict String String → Dict String String
unfolding normalize_symbol
mapped_symbols [] canonical = canonical
mapped_symbols ((symbol, mapping) ∷ rest) canonical =
    mapped_symbols rest (Dict.insert (normalize_symbol mapping.symbol) symbol canonical)

unfoldable pub canonical_of : MarketProvider → ProviderConfig → Dict String String
unfolding own_symbols mapped_symbols
canonical_of name config =
    if name == binance
    then mapped_symbols config.symbols (own_symbols config.symbols [])
    else own_symbols config.symbols []

module _ {F W : Type 0} (new : Constructors F W) where
  -- The `switch` on the name of the provider.
  unfoldable pub construct : MarketProvider → ProviderConfig → Result (MarketDataProvider F W)
  construct name config =
      if name == binance
      then new.new_binance config.base_url (map (λ s. (s.0, s.1.symbol)) config.symbols)
      else if name == coin_market_cap
      then new.new_coin_market_cap config.base_url config.api_key config.unit
          (map (λ s. (s.0, (s.1.platform, s.1.address))) config.symbols)
      else err (errorf "unsupported market provider %q" (name ∷ []))

  -- The three assignments at the end of the loop body.
  abbrev pub with_provider :
      List Interval
      → MarketProvider
      → ProviderConfig
      → MarketDataProvider F W
      → ProviderRegistry F W
      → ProviderRegistry F W
  with_provider intervals name config provider r = record {
    providers = Dict.insert name provider r.providers;
    capabilities =
        Dict.insert name (record { symbols = map (λ s. s.0) config.symbols; intervals = intervals })
          r.capabilities;
    canonical_symbols = Dict.insert name (canonical_of name config) r.canonical_symbols;
    default_provider = r.default_provider;
  }

  unfoldable pub register_all :
      List Interval
      → Dict MarketProvider ProviderConfig
      → ProviderRegistry F W
      → Result (ProviderRegistry F W)
  unfolding construct
  register_all intervals [] r = ok r
  register_all intervals ((name, config) ∷ rest) r = elim config.enabled [
    | false ↦ register_all intervals rest r
    | true ↦ elim (construct name config) [
      | err e ↦ err (wrapped "initialize market provider %s: %w" e)
      | ok provider ↦ register_all intervals rest (with_provider intervals name config provider r)
    ]
  ]

  -- `NewProviderRegistry`
  unfoldable pub new_provider_registry : MarketConfig → Result (ProviderRegistry F W)
  unfolding register_all
  new_provider_registry config =
      elim (register_all config.intervals config.providers (record {
        providers = [];
        capabilities = [];
        canonical_symbols = [];
        default_provider = config.default_provider;
      })) [
        | err e ↦ err e
        | ok registry ↦
            if not (has registry.default_provider registry.providers)
            then err (
                errorf "default market provider %q is not enabled" (registry.default_provider ∷ []))
            else ok registry
      ]

-- `sort.Slice` of names that differ.
unfoldable pub insert_name : MarketProvider → List MarketProvider → List MarketProvider
insert_name p [] = p ∷ []
insert_name p (q ∷ rest) =
    let later = insert_name p rest in if string_lt q p then q ∷ later else p ∷ q ∷ rest

unfoldable pub sort_names : List MarketProvider → List MarketProvider
unfolding insert_name
sort_names [] = []
sort_names (p ∷ rest) = insert_name p (sort_names rest)

module _ {F W : Type 0} (r : ProviderRegistry F W) where
  unfoldable pub get : MarketProvider → Result (MarketDataProvider F W)
  get provider = elim (Dict.lookup provider r.providers) [
    | none ↦ err (errorf "market provider %q is not enabled" (provider ∷ []))
    | some value ↦ ok value
  ]

  -- `Default`
  unfoldable pub default : MarketProvider × Result (MarketDataProvider F W)
  unfolding get
  default = (r.default_provider, get r.default_provider)

  unfoldable pub enabled : List MarketProvider
  unfolding sort_names
  enabled = sort_names (map (λ p. p.0) r.providers)

  unfoldable pub supports : MarketProvider → String → Interval → Bool
  supports provider symbol interval = elim (Dict.lookup provider r.capabilities) [
    | none ↦ false
    | some c ↦ contains c.symbols symbol && contains c.intervals interval
  ]

  unfoldable pub canonical_symbol : MarketProvider → String → Option String
  unfolding normalize_symbol
  canonical_symbol provider symbol = elim (Dict.lookup provider r.canonical_symbols) [
    | none ↦ none
    | some canonical ↦ Dict.lookup (normalize_symbol symbol) canonical
  ]

  -- The registry as a `ProviderResolver`
  unfoldable pub registry_resolver : ProviderResolver F W
  unfolding get supports enabled canonical_symbol
  registry_resolver = record {
    get = get;
    supports = supports;
    enabled = enabled;
    canonical_symbol = some canonical_symbol;
  }

-- ===== src/Config/Accepted.antt =====
-- What `Config.Validate` of internal/config/config.go promises to the components that are built from
-- the configuration.
use crypto_price_alert.Base.{
  ℕ, ◌≡◌, refl, String, true, false, ◌==◌, string_eq, contains, some, List, [], ◌∷◌, map, Result,
  ok, ok?, arith, All, Distinct, Apart, Apart-head, Apart-tail, Result-cases, Option-cases,
  Bool-cases, inl, inr, if◌then◌else◌,
}
use crypto_price_alert.Base.Dict.{Dict, lookup}
use crypto_price_alert.Domain.Interval
use crypto_price_alert.Domain.Interval.{Interval}
use crypto_price_alert.Domain.Location.{Location}
use crypto_price_alert.Domain.Provider
use crypto_price_alert.Domain.Provider.{MarketProvider}
use crypto_price_alert.Scheduler.Clock.{parse_clock}
use crypto_price_alert.Scheduler.Period.{new_period_engine}
use crypto_price_alert.Config.Settings.{Config, MarketConfig, ScheduleConfig, ProviderConfig}
use crypto_price_alert.Config.Check.{
  normal_symbol, normal_name, check_symbols, check_intervals, check_providers, check_default,
  check_market, check_clock, check_schedule, validate,
}

-- A list of symbols in their normal forms that the validation accepts.
pub record AreNames (names : List String) : Type 0 where
  pub distinct : Distinct names
  pub nonempty : All (λ x. (x == "") ≡ false) names

check_symbols-AreNames :
    (seen raw set : List String)
    → check_symbols seen raw ≡ ok set
    → AreNames (map normal_symbol raw) × Apart seen (map normal_symbol raw)
unfolding check_symbols
check_symbols-AreNames seen [] set h = (record { distinct = tt; nonempty = tt }, tt)
check_symbols-AreNames seen (raw ∷ rest) set h =
    let taken : ((normal_symbol raw == "") ≡ false)
        × (contains seen (normal_symbol raw) ≡ false)
        × (check_symbols (normal_symbol raw ∷ seen) rest ≡ ok set) =
      ground arith in
    let (ih, apart) = check_symbols-AreNames (normal_symbol raw ∷ seen) rest set taken.2 in
    (
      record {
        distinct = (Apart-head _ seen (map normal_symbol rest) apart, ih.distinct);
        nonempty = (taken.0, ih.nonempty);
      },
      (taken.1, Apart-tail _ seen (map normal_symbol rest) apart),
    )

check_intervals-valid :
    (seen : List Interval) (raw : List String)
    → check_intervals seen raw ≡ ok tt
    → All (λ i. Interval.validate (normal_name i) ≡ ok tt) raw
unfolding check_intervals
check_intervals-valid seen [] h = tt
check_intervals-valid seen (raw ∷ rest) h =
    elim (Result-cases (Interval.validate (normal_name raw))) [
      | inr (error, v) ↦ absurd (ground arith)
      | inl (valid, v) ↦ (v, check_intervals-valid (normal_name raw ∷ seen) rest (ground arith))
    ]

check_providers-valid :
    (symbols : List String) (configs : Dict MarketProvider ProviderConfig)
    → check_providers symbols configs ≡ ok tt
    → All (λ p. Provider.validate p.0 ≡ ok tt) configs
unfolding check_providers
check_providers-valid symbols [] h = tt
check_providers-valid symbols ((name, config) ∷ rest) h =
    elim (Result-cases (Provider.validate name)) [
      | inr (error, v) ↦ absurd (ground arith)
      | inl (valid, v) ↦ (v, check_providers-valid symbols rest (ground arith))
    ]

-- What the registry of the market providers and the configuration service rely on. A name of the
-- configuration counts in its normal form.
pub record IsMarket (market : MarketConfig) : Type 0 where
  pub symbols : AreNames (map normal_symbol market.symbols)
  pub intervals : All (λ i. Interval.validate (normal_name i) ≡ ok tt) market.intervals
  pub providers : All (λ p. Provider.validate p.0 ≡ ok tt) market.providers
  pub default_config : ProviderConfig
  pub default_found :
      lookup (normal_name market.default_provider) market.providers ≡ some default_config
  pub default_enabled : default_config.enabled ≡ true

default-enabled :
    (market : MarketConfig)
    → check_default market ≡ ok tt
    → (config : ProviderConfig) × (lookup (normal_name market.default_provider) market.providers
        ≡ some config)
      × (config.enabled ≡ true)
unfolding check_default
default-enabled market h =
    elim (Option-cases (lookup (normal_name market.default_provider) market.providers)) [
      | inl absent ↦ absurd (ground arith)
      | inr (config, found) ↦ (config, found, ground arith)
    ]

check_market-IsMarket : (market : MarketConfig) → check_market market ≡ ok tt → IsMarket market
unfolding check_market
check_market-IsMarket market h = elim (Result-cases (check_symbols [] market.symbols)) [
  | inr (error, x) ↦ absurd (ground arith)
  | inl (set, x) ↦
      (let (config, found, on) = default-enabled market (ground arith) in
        record {
          symbols = (check_symbols-AreNames [] market.symbols set x).0;
          intervals = check_intervals-valid [] market.intervals (ground arith);
          providers = check_providers-valid set market.providers (ground arith);
          default_config = config;
          default_found = found;
          default_enabled = on;
        })
]

clock-with_default :
    (value default : String) (m d : ℕ)
    → parse_clock value ≡ some m
    → parse_clock default ≡ some d
    → (n : ℕ) × (parse_clock (if value == "" then default else value) ≡ some n)
clock-with_default value default m d h k = elim (Bool-cases (value == "")) [
  | inl blank ↦ (d, rw blank k)
  | inr given ↦ (m, rw given h)
]

six : parse_clock "06:00" ≡ some 360
unfolding parse_clock
six = refl

eleven : parse_clock "23:00" ≡ some 1380
unfolding parse_clock
eleven = refl

check_clock-parses :
    (message value : String)
    → check_clock message value ≡ ok tt
    → (m : ℕ) × (parse_clock value ≡ some m)
unfolding check_clock
check_clock-parses message value h = elim (Option-cases (parse_clock value)) [
  | inl absent ↦ absurd (ground arith)
  | inr parsed ↦ parsed
]

check_schedule-starts :
    (location : Location) (schedule : ScheduleConfig)
    → check_schedule schedule ≡ ok tt
    → ok? (new_period_engine (some location) schedule.active_from schedule.active_until) ≡ true
unfolding check_schedule new_period_engine
check_schedule-starts location schedule h =
    let (m, from) =
      check_clock-parses "schedule.active_from: %w" schedule.active_from (ground arith) in
    let (n, until) =
      check_clock-parses "schedule.active_until: %w" schedule.active_until (ground arith) in
    let (m', from') = clock-with_default schedule.active_from "06:00" m 360 from six in
    let (n', until') = clock-with_default schedule.active_until "23:00" n 1380 until eleven in
    ground arith

module _ (load : String → Result Location) (c : Config) (accepted : validate load c ≡ ok tt) where
  pub validate-IsMarket : IsMarket c.market
  unfolding validate
  validate-IsMarket = check_market-IsMarket c.market (ground arith)

  -- The period engine can be built from an accepted configuration, at every time zone.
  pub validate-starts :
      (location : Location)
      → ok? (new_period_engine (some location) c.schedule.active_from c.schedule.active_until)
        ≡ true
  unfolding validate
  validate-starts location = check_schedule-starts location c.schedule (ground arith)

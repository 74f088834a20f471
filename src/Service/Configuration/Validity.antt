-- ===== src/Service/Configuration/Validity.antt =====
-- The configuration service and the repository agree: what the service lets through passes the
-- `Validate` that the repository calls (internal/domain/types.go).
use mathlib.Core.Path.{subst}
use mathlib.Core.Bool.{false≢true}
use crypto_price_alert.Base.{
  ℕ, ◌≤◌, ◌≡◌, refl, sym, ◌∙◌, String, Bool, true, false, ◌==◌, contains, string_eq, List, [], ◌∷◌,
  ok, ok?, negative64, length, empty?, arith, All, All-mono, Distinct, Apart, Apart-cons, Apart-nil,
  Result-cases, inl, inr, ==_ne, ==_path, Bool-cases,
}
use crypto_price_alert.Base.Text.{trim_space}
use crypto_price_alert.Domain.Interval
use crypto_price_alert.Domain.Interval.{Interval}
use crypto_price_alert.Domain.Provider
use crypto_price_alert.Domain.Provider.{MarketProvider}
use crypto_price_alert.Domain.AlertConfig
use crypto_price_alert.Domain.AlertConfig.{AlertConfig}
use crypto_price_alert.Service.Configuration.{
  Configuration, effective_provider, checked_config, validate_provider_selection,
}
use crypto_price_alert.Service.Configuration.Validator.{validate_symbols, validate_intervals}
use crypto_price_alert.Service.Configuration.Acceptance.{
  validate_symbols-Accepted, validate_intervals-Accepted,
}

check_symbols-ok :
    (seen xs : List String)
    → Distinct xs
    → Apart seen xs
    → All (λ x. (x == "") ≡ false) xs
    → AlertConfig.check_symbols seen xs ≡ ok tt
unfolding AlertConfig.check_symbols
check_symbols-ok seen [] d a n = refl
check_symbols-ok seen (x ∷ xs) d a n =
    rw (n.0, a.0) (check_symbols-ok (x ∷ seen) xs d.1 (Apart-cons x seen xs d.0 a.1) n.1)

check_intervals-ok :
    (seen xs : List Interval)
    → Distinct xs
    → Apart seen xs
    → All (λ x. Interval.validate x ≡ ok tt) xs
    → AlertConfig.check_intervals seen xs ≡ ok tt
unfolding AlertConfig.check_intervals
check_intervals-ok seen [] d a n = refl
check_intervals-ok seen (x ∷ xs) d a n =
    rw (n.0, a.0) (check_intervals-ok (x ∷ seen) xs d.1 (Apart-cons x seen xs d.0 a.1) n.1)

-- What `NewService` and the resolver guarantee of a service: the allowed symbols are not empty, the
-- allowed intervals are supported, and the names that the resolver knows are market providers.
pub record IsSound {F W : Type 0} (s : Configuration F W) : Type 0 where
  pub no_empty_symbol : contains s.allowed_symbols "" ≡ false
  pub intervals_valid : All (λ i. Interval.validate i ≡ ok tt) s.allowed_intervals
  pub default_valid : Provider.validate s.default_provider ≡ ok tt
  pub known_valid :
      (p : MarketProvider) → ok? (s.providers.get p) ≡ true → Provider.validate p ≡ ok tt

allowed-nonempty :
    (allowed names : List String)
    → contains allowed "" ≡ false
    → All (λ x. contains allowed x ≡ true) names
    → All (λ x. (x == "") ≡ false) names
allowed-nonempty allowed [] h a = tt
allowed-nonempty allowed (x ∷ xs) h a = (
  ==_ne {A = String} (λ p. false≢true (sym h ∙ (rw p at (a.0)))),
  allowed-nonempty allowed xs h a.1,
)

member-of_All :
    (P : String → Type 0) (xs : List String) (x : String) → All P xs → contains xs x ≡ true → P x
member-of_All P [] x h m = absurd (ground arith)
member-of_All P (y ∷ xs) x h m = elim (Bool-cases (y == x)) [
  | inl here ↦ subst P (==_path y x here) h.0
  | inr other ↦ member-of_All P xs x h.1 (ground arith)
]

nonempty : (xs : List String) → 1 ≤ length xs → empty? xs ≡ false
nonempty [] h = absurd (omega arith)
nonempty (x ∷ xs) h = refl

empty-invalid : Provider.validate "" ≡ ok tt → ⊥
unfolding Provider.validate string_eq
empty-invalid h = cc

valid-nonempty : (p : MarketProvider) → Provider.validate p ≡ ok tt → (p == "") ≡ false
valid-nonempty p h = ==_ne {A = String} (λ e. empty-invalid (rw e at h))

-- What a configuration was made from.
record Checked {F W : Type 0} (s : Configuration F W) (target_id : String)
    (provider : MarketProvider) (symbols : List String) (intervals : List Interval) (enabled : Bool)
    (updated_by : String) (version : ℕ) (c : AlertConfig) : Type 0 where
  names : List String
  spans : List Interval
  symbols_ok : validate_symbols s.allowed_symbols s.max_symbols symbols ≡ ok names
  intervals_ok : validate_intervals s.allowed_intervals intervals ≡ ok spans
  selection_ok : validate_provider_selection s (effective_provider s provider) names spans ≡ ok tt
  signed : (trim_space updated_by == "") ≡ false
  built : c ≡ record {
    target_id = target_id;
    market_provider = effective_provider s provider;
    enabled = enabled;
    symbols = names;
    intervals = spans;
    version = version;
    updated_by = trim_space updated_by;
    updated_at = 0;
  }

module _ {F W : Type 0} (s : Configuration F W) (target_id : String) (provider : MarketProvider)
    (symbols : List String) (intervals : List Interval) (enabled : Bool) (updated_by : String)
    (version : ℕ) (c : AlertConfig) where
  checked_config-Checked :
      checked_config s target_id provider symbols intervals enabled updated_by version ≡ ok c
      → Checked s target_id provider symbols intervals enabled updated_by version c
  unfolding checked_config
  checked_config-Checked h =
      elim (Result-cases (validate_symbols s.allowed_symbols s.max_symbols symbols)) [
        | inr (error, x) ↦ absurd (ground arith)
        | inl (names, x) ↦ elim (Result-cases (validate_intervals s.allowed_intervals intervals)) [
          | inr (error, y) ↦ absurd (ground arith)
          | inl (spans, y) ↦ record {
            names = names;
            spans = spans;
            symbols_ok = x;
            intervals_ok = y;
            selection_ok = ground arith;
            signed = ground arith;
            built = ground arith;
          }
        ]
      ]

module _ {F W : Type 0} (s : Configuration F W) (sound : IsSound s) where
  effective_provider-valid :
      (p : MarketProvider) → Provider.validate (effective_provider s p) ≡ ok tt
  unfolding effective_provider
  effective_provider-valid p = elim (Result-cases (s.providers.get p)) [
    | inl (known, x) ↦ rw (x, effective_provider) (sound.known_valid p (rw x))
    | inr (error, x) ↦ rw (x, effective_provider) sound.default_valid
  ]

  -- Over a sound configuration service, every configuration that it builds from a request and hands
  -- to the repository passes the repository's own validation, if the target is named and the
  -- version is not negative.
  pub checked_config-valid :
      (target_id : String) (provider : MarketProvider) (symbols : List String)
      (intervals : List Interval) (enabled : Bool) (updated_by : String) (version : ℕ)
      (c : AlertConfig)
      → checked_config s target_id provider symbols intervals enabled updated_by version ≡ ok c
      → (target_id == "") ≡ false
      → negative64 version ≡ false
      → AlertConfig.validate c ≡ ok tt
  unfolding AlertConfig.validate
  checked_config-valid target_id provider symbols intervals enabled updated_by version c h named
        counted =
      let ch =
        checked_config-Checked s target_id provider symbols intervals enabled updated_by version c
          h in
      let (names_ok, some_names) =
        validate_symbols-Accepted s.allowed_symbols s.max_symbols symbols ch.names ch.symbols_ok in
      let (spans_ok, some_spans) =
        validate_intervals-Accepted s.allowed_intervals intervals ch.spans ch.intervals_ok in
      let valid = effective_provider-valid provider in
      let good_symbols =
        check_symbols-ok [] ch.names names_ok.distinct (Apart-nil ch.names) (
          allowed-nonempty s.allowed_symbols ch.names sound.no_empty_symbol names_ok.are_allowed) in
      let good_intervals = check_intervals-ok [] ch.spans spans_ok.distinct (Apart-nil ch.spans) (
        All-mono _ _
          (λ i m.
            member-of_All (λ j. Interval.validate j ≡ ok tt) s.allowed_intervals i
              sound.intervals_valid m)
          ch.spans spans_ok.are_allowed) in
      rw
        (
          ch.built,
          named,
          valid-nonempty _ valid,
          counted,
          ch.signed,
          valid,
          nonempty ch.names some_names.0,
          nonempty ch.spans some_spans,
          good_symbols,
        )
        good_intervals

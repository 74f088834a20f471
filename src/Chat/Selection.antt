-- ===== src/Chat/Selection.antt =====
-- What the configuration menus of internal/chat/telegram/webhook.go and internal/chat/slack/webhook.go
-- share: the values that a provider offers, and the switching of a value.
pub mod Switching
use crypto_price_alert.Base.{
  Bool, String, ◌==◌, ◌||◌, contains, Eq, string_eq, List, [], ◌∷◌, if◌then◌else◌, false,
}
use crypto_price_alert.Base.Text.{join}
use crypto_price_alert.Domain.Interval.{Interval}
use crypto_price_alert.Domain.Provider.{MarketProvider}
use crypto_price_alert.Market.Provider.{ProviderResolver}

-- The members that pass a test, and whether one does.
unfoldable pub keep : {A : Type 0} → (A → Bool) → List A → List A
keep test [] = []
keep test (x ∷ xs) = let rest = keep test xs in if test x then x ∷ rest else rest

unfoldable pub some_pass : {A : Type 0} → (A → Bool) → List A → Bool
some_pass test [] = false
some_pass test (x ∷ xs) = test x || some_pass test xs

module _ {A : Type 0} ⦃e : Eq A⦄ where
  -- `toggleString` and `toggleInterval`
  unfoldable pub toggle : List A → A → List A
  toggle [] value = value ∷ []
  toggle (current ∷ rest) value =
      let later = toggle rest value in if current == value then rest else current ∷ later

  -- `filterStrings` and `filterIntervals`
  unfoldable pub keep_allowed : List A → List A → List A
  unfolding keep
  keep_allowed values allowed = keep (contains allowed) values

-- `joinSelectedStrings` and `joinSelectedIntervals`
unfoldable pub join_selected : List String → String
unfolding join
join_selected [] = "none"
join_selected (value ∷ values) = join (value ∷ values) ", "

module _ {F W : Type 0} (providers : ProviderResolver F W) (symbols : List String)
    (intervals : List Interval) where
  unfoldable pub available_symbols : MarketProvider → List String
  unfolding keep some_pass
  available_symbols provider =
      keep (λ symbol. some_pass (λ interval. providers.supports provider symbol interval) intervals)
        symbols

  unfoldable pub available_intervals : MarketProvider → List Interval
  unfolding keep some_pass
  available_intervals provider =
      keep (λ interval. some_pass (λ symbol. providers.supports provider symbol interval) symbols)
        intervals

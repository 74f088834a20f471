-- ===== src/Scheduler/Target/Keys.antt =====
-- `fetchKey` and the set of the needed keys, of internal/scheduler/target_executor.go
use crypto_price_alert.Base.{
  String, Bool, ◌==◌, contains, string_eq, pair_eq, List, [], ◌∷◌, if◌then◌else◌,
}
use crypto_price_alert.Base.Text.{string_lt}
use crypto_price_alert.Domain.Provider.{MarketProvider}

-- A market provider and a symbol.
abbrev pub Key : Type 0
Key = MarketProvider × String

-- `neededSet[key] = struct{}{}`
unfoldable pub add_key : Key → List Key → List Key
add_key key keys = if contains keys key then keys else key ∷ keys

-- The comparison given to `slices.SortFunc`: `true` where it returns a negative number.
unfoldable pub key_lt : Key → Key → Bool
key_lt (p, s) (q, t) = if p == q then string_lt s t else string_lt p q

unfoldable pub insert_key : Key → List Key → List Key
unfolding key_lt
insert_key key [] = key ∷ []
insert_key key (k ∷ keys) = if key_lt k key then k ∷ insert_key key keys else key ∷ k ∷ keys

-- `slices.SortFunc`; the keys of a set are different, so that every sort gives this list.
unfoldable pub sort_keys : List Key → List Key
unfolding insert_key
sort_keys [] = []
sort_keys (key ∷ keys) = insert_key key (sort_keys keys)

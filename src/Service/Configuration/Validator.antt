-- ===== src/Service/Configuration/Validator.antt =====
-- internal/service/configuration/validator.go
use crypto_price_alert.Base.{
  ℕ, String, contains, string_eq, not, List, [], ◌∷◌, failure, errorf, Result, ok, err, ltb, length,
  empty?, ◌>>=◌, if◌then◌else◌,
}
use crypto_price_alert.Base.Text.{trim_space, to_upper, decimal}
use crypto_price_alert.Domain.Interval.{Interval}

unfoldable pub normalize_symbol : String → String
normalize_symbol symbol = to_upper (trim_space symbol)

module _ (allowed : List String) where
  -- The loop of `validateSymbols`; `seen` holds the normalized symbols before.
  unfoldable pub check_symbols : List String → List String → Result (List String)
  check_symbols seen [] = ok []
  check_symbols seen (raw ∷ rest) =
      let symbol = normalize_symbol raw in
      let others = check_symbols (symbol ∷ seen) rest in
      if not (contains allowed symbol)
      then err (errorf "unsupported symbol %q" (symbol ∷ []))
      else if contains seen symbol
      then err (errorf "duplicate symbol %q" (symbol ∷ []))
      else others >>= λ xs. ok (symbol ∷ xs)

  unfoldable pub check_interval_list : List Interval → List Interval → Result (List Interval)
  check_interval_list seen [] = ok []
  check_interval_list seen (interval ∷ rest) =
      let others = check_interval_list (interval ∷ seen) rest in
      if not (contains allowed interval)
      then err (errorf "unsupported interval %q" (interval ∷ []))
      else if contains seen interval
      then err (errorf "duplicate interval %q" (interval ∷ []))
      else others >>= λ xs. ok (interval ∷ xs)

  unfoldable pub validate_symbols : ℕ → List String → Result (List String)
  unfolding check_symbols
  validate_symbols max_symbols symbols =
      if empty? symbols
      then err (failure "at least one symbol is required")
      else if ltb max_symbols (length symbols)
      then err (errorf "at most %d symbols are allowed" (decimal max_symbols ∷ []))
      else check_symbols [] symbols

  unfoldable pub validate_intervals : List Interval → Result (List Interval)
  unfolding check_interval_list
  validate_intervals intervals =
      if empty? intervals
      then err (failure "at least one interval is required")
      else check_interval_list [] intervals
